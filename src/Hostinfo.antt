-- ===== src/Hostinfo.antt =====
-- internal/vmmanager/hostinfo.go: the memory of the host from /proc/meminfo.

use devplat_agent.Base.{
  ℕ, zero, suc, ◌/◌, ◌^◌, ◌<◌, ◌≡◌, refl, Bool, true, false, ◌||◌, List, [], ◌∷◌, ◌++◌, Option,
  none, some, if◌then◌else◌, ◌==◌, All,
}
use devplat_agent.Base.Int.{ℤ, pos, negsuc}
use devplat_agent.Base.Text.{Bytes, codes, has_prefix, itoa, atoi, atoi-itoa}

-- A line without the carriage return at its end.
drop_return : Bytes → Bytes
drop_return [] = []
drop_return (c ∷ []) = if c == 13 then [] else c ∷ []
drop_return (c ∷ d ∷ s) = c ∷ drop_return (d ∷ s)

-- The line that is read, and the rest of the text.
onto_line : ℕ → List Bytes → List Bytes
onto_line c [] = (c ∷ []) ∷ []
onto_line c (line ∷ lines) = (c ∷ line) ∷ lines

raw_lines : Bytes → List Bytes
raw_lines [] = []
raw_lines (c ∷ s) = let rest = raw_lines s in if c == 10 then [] ∷ rest else onto_line c rest

each_dropped : List Bytes → List Bytes
each_dropped [] = []
each_dropped (line ∷ lines) = drop_return line ∷ each_dropped lines

-- bufio.ScanLines, on lines shorter than its buffer
unfoldable pub scan_lines : Bytes → List Bytes
unfolding each_dropped drop_return raw_lines onto_line
scan_lines text = each_dropped (raw_lines text)

is_space : ℕ → Bool
is_space c = (c == 32) || (c == 9) || (c == 10) || (c == 11) || (c == 12) || (c == 13)

closed_field : Bytes → List Bytes → List Bytes
closed_field [] fields = fields
closed_field (c ∷ field) fields = (c ∷ field) ∷ fields

fields_from : Bytes → Bytes → List Bytes
fields_from field [] = closed_field field []
fields_from field (c ∷ s) =
    let apart = fields_from [] s in
    let joined = fields_from (field ++ (c ∷ [])) s in
    if is_space c then closed_field field apart else joined

-- strings.Fields of an ASCII text
unfoldable pub fields : Bytes → List Bytes
unfolding fields_from closed_field is_space
fields line = fields_from [] line

-- Division of int64 values, towards zero.
unfoldable pub quotient : ℤ → ℕ → ℤ
quotient (pos n) d = pos (n / d)
quotient (negsuc n) d = elim (suc n / d) [ zero ↦ pos 0 | suc q ↦ negsuc q ]

-- The value of a line that starts with MemTotal:, in MB.
unfoldable pub line_mb : List Bytes → ℤ
unfolding quotient
line_mb (label ∷ kb ∷ rest) = elim (atoi kb) [ none ↦ pos 0 | some n ↦ quotient n 1024 ]
line_mb _ = pos 0

-- The loop over the lines.
unfoldable pub scan_total : List Bytes → ℤ
unfolding line_mb
scan_total [] = pos 0
scan_total (line ∷ lines) =
    let rest = scan_total lines in
    if has_prefix line (codes "MemTotal:") then line_mb (fields line) else rest

-- detectRamTotalMb, from the text of /proc/meminfo where it can be opened
unfoldable pub detect_ram_total_mb : Option Bytes → ℤ
unfolding scan_total
detect_ram_total_mb none = pos 0
detect_ram_total_mb (some text) = scan_total (scan_lines text)

-- Lines that are not the one of the total.
abbrev pub Others : List Bytes → Type 0
Others = All (λ (line : Bytes). has_prefix line (codes "MemTotal:") ≡ false)

-- If the second field of the first line of /proc/meminfo that starts with MemTotal: is a number of
-- kB below 2 ^ 63, the memory of the host is that number divided by 1024, whatever the other lines
-- are.
pub scan_total_first :
    (before after : List Bytes) (line label : Bytes) (kb : ℕ) (rest : List Bytes)
    → Others before
    → has_prefix line (codes "MemTotal:") ≡ true
    → fields line ≡ label ∷ itoa (pos kb) ∷ rest
    → kb < 2 ^ 63
    → scan_total (before ++ (line ∷ after)) ≡ pos (kb / 1024)
unfolding scan_total line_mb quotient
scan_total_first [] after line label kb rest o h f b = rw (h, f, line_mb, atoi-itoa kb b)
scan_total_first (other ∷ before) after line label kb rest o h f b =
    rw o.0 (scan_total_first before after line label kb rest o.1 h f b)

meminfo_example :
    detect_ram_total_mb
      (some (codes "Cached: 12 kB" ++ (10 ∷ codes "MemTotal:       16384000 kB" ++ (10 ∷ []))))
    ≡ pos 16000
unfolding detect_ram_total_mb scan_lines fields has_prefix atoi
meminfo_example = refl
