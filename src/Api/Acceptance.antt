-- ===== src/Api/Acceptance.antt =====
-- internal/api/server.go: the guards of handleCreateVM, case by case.
use devplat_agent.Base.{
  ◌≡◌, refl, true, false, ◌||◌, [], Option, some, inl, inr, Bool-cases, Option-cases,
}
use devplat_agent.Base.Int.{pos, leb_ℤ}
use devplat_agent.Base.Text.{Bytes, codes, text_eq}
use devplat_agent.Json.{Json}
use devplat_agent.Manager.Admission.{CreateRequest}
use devplat_agent.Api.Server.{
  Server, Accepted, turned_down, accepted, accept_create, decode_request, write_error,
}

pub data Verdict (s : Server) (body : Option Json) (c : Accepted) : Type 0 where
  drained :
      s.draining ≡ true
      → c ≡ turned_down (write_error 503 (codes "host_draining"))
      → Verdict s body c
  malformed :
      (msg : Bytes) → s.draining ≡ false → c ≡ turned_down (write_error 400 msg) → Verdict s body c
  asks :
      (req : CreateRequest)
      → s.draining ≡ false
      → decode_request body ≡ some req
      → c ≡ accepted req
      → Verdict s body c

pub accept_create-Verdict :
    (s : Server) (body : Option Json) → Verdict s body (accept_create s body)
unfolding accept_create
accept_create-Verdict s body = elim (Bool-cases s.draining) [
  | inl drains ↦ drained drains (rw drains refl)
  | inr open' ↦ elim (Option-cases (decode_request body)) [
    | inl bad ↦ malformed (codes "invalid_body") open' (rw (open', bad) refl)
    | inr (req, good) ↦ elim (Bool-cases (text_eq req.team_id [])) [
      | inl anonymous ↦
          malformed (codes "team_id_required") open' (rw (open', good, anonymous) refl)
      | inr named ↦ elim (Bool-cases (leb_ℤ req.vcpu (pos 0) || leb_ℤ req.ram_mb (pos 0))) [
        | inl empty ↦
            malformed (codes "vcpu_and_ram_mb_required") open' (rw (open', good, named, empty) refl)
        | inr sized ↦ asks req open' good (rw (open', good, named, sized) refl)
      ]
    ]
  ]
]
