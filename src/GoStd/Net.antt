-- ===== src/GoStd/Net.antt =====
-- `net.SplitHostPort`: the host, or `none` for an error.
use go_personal_web.Prelude.{
  ℕ, suc, ◌+◌, ◌≡◌, refl, Bool, false, ◌&&◌, Option, none, some, [], ◌∷◌, ◌++◌, arith, ◌==◌,
  if◌then◌else◌, length, take, drop, Bytes, Lacks, codes, is_absent,
}

-- `bytealg.IndexByteString` and `LastIndexByteString`; `none` is -1.
unfoldable pub index_byte : ℕ → Bytes → Option ℕ
index_byte c [] = none
index_byte c (d ∷ s) =
    if d == c then some 0 else elim (index_byte c s) [ none ↦ none | some i ↦ some (suc i) ]

unfoldable pub last_index_byte : ℕ → Bytes → Option ℕ
last_index_byte c [] = none
last_index_byte c (d ∷ s) = elim (last_index_byte c s) [
  | some i ↦ some (suc i)
  | none ↦ if d == c then some 0 else none
]

-- An address in brackets: the `]` stands just before the last colon, at `i`.
bracketed : Bytes → ℕ → Option Bytes
bracketed hostport i = elim (index_byte b']' hostport) [
  | none ↦ none
  | some end ↦
      if (end + 1 == i)
        && is_absent (index_byte b'[' (drop 1 hostport))
        && is_absent (index_byte b']' (drop (end + 1) hostport))
      then some (drop 1 (take end hostport))
      else none
]

plain : Bytes → ℕ → Option Bytes
plain hostport i =
    if is_absent (index_byte b':' (take i hostport))
      && is_absent (index_byte b'[' hostport)
      && is_absent (index_byte b']' hostport)
    then some (take i hostport)
    else none

abbrev starts_with_bracket : Bytes → Bool
starts_with_bracket [] = false
starts_with_bracket (c ∷ s) = c == b'['

unfoldable pub split_host_port : Bytes → Option Bytes
unfolding bracketed plain index_byte last_index_byte
split_host_port hostport = elim (last_index_byte b':' hostport) [
  | none ↦ none
  | some i ↦ if starts_with_bracket hostport then bracketed hostport i else plain hostport i
]

index_byte-Lacks : (c : ℕ) (s : Bytes) → Lacks c s → index_byte c s ≡ none
unfolding index_byte
index_byte-Lacks c [] h = refl
index_byte-Lacks c (d ∷ s) (ne, h) = ground (arith, index_byte-Lacks c s h)

last_index_byte-Lacks : (c : ℕ) (s : Bytes) → Lacks c s → last_index_byte c s ≡ none
unfolding last_index_byte
last_index_byte-Lacks c [] h = refl
last_index_byte-Lacks c (d ∷ s) (ne, h) = ground (arith, last_index_byte-Lacks c s h)

last_index_byte-append :
    (c : ℕ) (s t : Bytes) → Lacks c t → last_index_byte c (s ++ c ∷ t) ≡ some (length s)
unfolding last_index_byte
last_index_byte-append c [] t h = ground (arith, last_index_byte-Lacks c t h)
last_index_byte-append c (d ∷ s) t h = ground (arith, last_index_byte-append c s t h)

Lacks-append : (c : ℕ) (s t : Bytes) → Lacks c s → Lacks c t → Lacks c (s ++ t)
Lacks-append c [] t h k = k
Lacks-append c (d ∷ s) t (ne, h) k = (ne, Lacks-append c s t h k)

take-length-append : (s t : Bytes) → take (length s) (s ++ t) ≡ s
take-length-append [] t = refl
take-length-append (c ∷ s) t = ground (arith, take-length-append s t)

-- A host and port with none of the three marks in them.
abbrev pub IsBare : Bytes → Type 0
IsBare s = Lacks b':' s × Lacks b'[' s × Lacks b']' s

starts_with_bracket-Lacks : (s : Bytes) → Lacks b'[' s → starts_with_bracket s ≡ false
starts_with_bracket-Lacks [] h = refl
starts_with_bracket-Lacks (c ∷ s) (ne, h) = ground arith

pub split_host_port_plain :
    (host port : Bytes)
    → IsBare host
    → IsBare port
    → split_host_port (host ++ b':' ∷ port) ≡ some host
unfolding split_host_port
split_host_port_plain host port (hc, ho, hd) (pc, po, pd) =
    let addr = host ++ b':' ∷ port in
    let opens = Lacks-append b'[' host (b':' ∷ port) ho ((λ e. omega arith), po) in
    let closes = Lacks-append b']' host (b':' ∷ port) hd ((λ e. omega arith), pd) in
    ground (
      arith,
      last_index_byte-append b':' host port pc,
      starts_with_bracket-Lacks addr opens,
      index_byte-Lacks b'[' addr opens,
      index_byte-Lacks b']' addr closes,
      take-length-append host (b':' ∷ port),
      index_byte-Lacks b':' host hc,
    )

split_tests :
    (split_host_port (codes "192.0.2.1:4000") ≡ some (codes "192.0.2.1"))
    × (split_host_port (codes "[::1]:4000") ≡ some (codes "::1"))
    × (split_host_port (codes "::1:4000") ≡ none)
    × (split_host_port (codes "[::1]") ≡ none)
    × (split_host_port (codes "localhost") ≡ none)
unfolding split_host_port codes
split_tests = (refl, refl, refl, refl, refl)
