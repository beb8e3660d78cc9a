-- ===== src/Api/Proxy.antt =====
-- internal/api/server.go: GET /vms/{id}/proxy/{port} and its connections.
use devplat_agent.Base.{
  ◌≡◌, refl, inl, inr, Bool, false, ◌||◌, [], ◌∷◌, ◌++◌, none, some, arith, Bool-cases,
  Option-cases,
}
use devplat_agent.Base.Int.{ℤ, pos, ltb_ℤ, ◌≤ℤ◌}
use devplat_agent.Base.Text.{Bytes, codes, itoa, atoi}
use devplat_agent.Base.Assoc.{lookup, bytes_key}
use devplat_agent.Network.Address.{dotted}
use devplat_agent.Network.Derive.{derive_net_config}
use devplat_agent.World.{World, attempt, dial, hijack, close_guest, close_conn}
use devplat_agent.Manager.State.{Vm, Agent, Setting}
use devplat_agent.Manager.Queries.{guest_addr}
use devplat_agent.Api.Server.{Reply, write_error, splice, connect, handle_proxy_port}

-- The guest and the client connections that are open at the end of a run that is given newest first:
-- a successful dial or hijack opens one, and a close closes it.
unfoldable pub guest_open : World → Bool
guest_open [] = false
guest_open (e ∷ w) = elim e.call [
  | dial addr ↦ e.ok || guest_open w
  | close_guest ↦ false
  | _ ↦ guest_open w
]

unfoldable pub client_open : World → Bool
client_open [] = false
client_open (e ∷ w) = elim e.call [
  | hijack ↦ e.ok || client_open w
  | close_conn ↦ false
  | _ ↦ client_open w
]

module _ {S : Type 0} (env : Setting S) where
  -- The reply of the proxy by what the request names.
  pub data Proxied (id : Bytes) (port_text : Bytes) (a : Agent S) (result : Reply × Agent S)
      : Type 0 where
    no_port :
        ((p : ℤ) → atoi port_text ≡ some p → pos 1 ≤ℤ p → p ≤ℤ pos 65535 → ⊥)
        → result ≡ (write_error 400 (codes "invalid_port"), a)
        → Proxied id port_text a result
    no_vm :
        lookup id a.manager.vms ≡ none
        → result ≡ (write_error 404 (codes "not_found"), a)
        → Proxied id port_text a result
    to_guest :
        (vm : Vm) (port : ℤ)
        → lookup id a.manager.vms ≡ some vm
        → atoi port_text ≡ some port
        → pos 1 ≤ℤ port
        → port ≤ℤ pos 65535
        → (let addr =
              dotted (derive_net_config env.config vm.slot).guest_ip ++ (b':' ∷ itoa port) in
            let (reply, w) = connect env addr a.world in result ≡ (reply, record a { world = w }))
        → Proxied id port_text a result

  -- The proxy answers 400 unless the port is a number from 1 to 65535, 404 for an unknown VM, and
  -- otherwise connects to that port of the guest address of the VM's own slot, with the manager
  -- unchanged.
  pub handle_proxy_port-Proxied :
      (id port_text : Bytes) (a : Agent S)
      → Proxied id port_text a (handle_proxy_port env id port_text a)
  unfolding handle_proxy_port guest_addr
  handle_proxy_port-Proxied id port_text a = elim (Option-cases (atoi port_text)) [
    | inl none' ↦ rw (none', handle_proxy_port) (no_port (λ p e lo hi. absurd (ground arith)) refl)
    | inr (port, parsed) ↦ elim (Bool-cases (ltb_ℤ port (pos 1) || ltb_ℤ (pos 65535) port)) [
      | inl outside' ↦
          rw (parsed, handle_proxy_port, outside')
            (no_port (λ p e lo hi. absurd (ground arith)) refl)
      | inr inside ↦ elim (Option-cases (lookup id a.manager.vms)) [
        | inl missing ↦
            rw (parsed, handle_proxy_port, inside, missing, guest_addr) (no_vm missing refl)
        | inr (vm, listed) ↦
            rw (parsed, handle_proxy_port, inside, listed, guest_addr)
              (to_guest vm port listed parsed (ground arith) (ground arith) refl)
      ]
    ]
  ]

  -- If no guest and no client connection was open before, the proxy leaves none open at its end,
  -- whichever call fails.
  pub connect_closes :
      (addr : Bytes) (w : World)
      → guest_open w ≡ false
      → client_open w ≡ false
      → (guest_open (connect env addr w).1 ≡ false) × (client_open (connect env addr w).1 ≡ false)
  unfolding connect splice attempt guest_open client_open
  connect_closes addr w g c = ground arith
