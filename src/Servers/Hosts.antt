-- ===== src/Servers/Hosts.antt =====
-- The host of an address: this machine's names, and the user and port around a host.
use dms_bitwarden_cli.Common.{
  ℕ, suc, ◌≡◌, refl, sym, ap, ◌∙◌, ◌⊎◌, inl, inr, Bool, true, false, ◌&&◌, ◌||◌, List, [], ◌∷◌,
  ◌++◌, arith, Bool-cases, Option-cases, length, take, drop, any, all, Str, codes, ◌===◌, ===_eq,
  lower_ascii, ◌==◌, split, join, last_index_of, is_digit,
}
use dms_bitwarden_cli.Sites.{is_octet_text}
use dms_bitwarden_cli.Servers.{is_loopback_host, after_last_at, without_any_port}
use dms_bitwarden_cli.Servers.Parts.{last_index_of-none, last_index_of-CutAt, join-split}
use mathlib.Core.List.{append_assoc, append-nil}
use mathlib.Core.Bool.{true≢false}

-- `localhost`, an address 127.a.b.c of up to three digits each, or the IPv6 loopback address.
abbrev pub IsThisMachine : Str → Type 0
IsThisMachine host =
    (lower_ascii host ≡ codes "localhost")
    ⊎ ((a : Str) × (b : Str) × (c : Str) × (host ≡ join (codes ".") (codes "127" ∷ a ∷ b ∷ c ∷ []))
        × (all is_octet_text (a ∷ b ∷ c ∷ []) ≡ true))
    ⊎ (host ≡ codes "[::1]")
    ⊎ (host ≡ codes "::1")

five_not_four : (n : ℕ) → (suc (suc (suc (suc (suc n)))) == 4) ≡ true → ⊥
five_not_four n h = ground arith

second_of_four :
    (a x y z c d : Bool)
    → (a || (x && y && z) || c || d) ≡ true
    → a ≡ false
    → c ≡ false
    → d ≡ false
    → (x ≡ true) × (y ≡ true) × (z ≡ true)
second_of_four a x y z c d h n m k = ground arith

four_parts :
    (host : Str) (parts : List Str)
    → join (codes ".") parts ≡ host
    → (length parts == 4) ≡ true
    → any (λ p. p === codes "127") (take 1 parts) ≡ true
    → all is_octet_text (drop 1 parts) ≡ true
    → IsThisMachine host
unfolding any
four_parts host (p ∷ a ∷ b ∷ c ∷ []) h n first rest = inr (
    inl (
      a,
      b,
      c,
      sym h
          ∙ ap (λ t. join (codes ".") (t ∷ a ∷ b ∷ c ∷ []))
              (===_eq p (codes "127") (ground (arith, first))),
      rest,
    ))
four_parts host [] h n first rest = absurd (true≢false (sym n))
four_parts host (p ∷ []) h n first rest = absurd (true≢false (sym n))
four_parts host (p ∷ a ∷ []) h n first rest = absurd (true≢false (sym n))
four_parts host (p ∷ a ∷ b ∷ []) h n first rest = absurd (true≢false (sym n))
four_parts host (p ∷ a ∷ b ∷ c ∷ d ∷ ps) h n first rest = absurd (five_not_four (length ps) n)

pub is_loopback_host-IsThisMachine :
    (host : Str) → is_loopback_host host ≡ true → IsThisMachine host
unfolding is_loopback_host
is_loopback_host-IsThisMachine host h = elim (Bool-cases (lower_ascii host === codes "localhost")) [
  | inl e ↦ inl (===_eq (lower_ascii host) (codes "localhost") e)
  | inr n ↦ elim (Bool-cases (host === codes "[::1]")) [
    | inl e ↦ inr (inr (inl (===_eq host (codes "[::1]") e)))
    | inr m ↦ elim (Bool-cases (host === codes "::1")) [
      | inl e ↦ inr (inr (inr (===_eq host (codes "::1") e)))
      | inr k ↦
          let (four, first, rest) = second_of_four _ _ _ _ _ _ h n m k in
          four_parts host (split b'.' host) (join-split b'.' host) four first rest
    ]
  ]
]

-- What stands before the host.
pub after_last_at-user :
    (s : Str)
    → (user : Str) × (s ≡ user ++ after_last_at s)
      × ((user ≡ []) ⊎ ((name : Str) × (user ≡ name ++ b'@' ∷ [])))
      × (any (λ c. b'@' == c) (after_last_at s) ≡ false)
unfolding after_last_at
after_last_at-user s = elim (Option-cases (last_index_of b'@' s)) [
  | inl n ↦ rw (after_last_at, n) ([], refl, inl refl, last_index_of-none b'@' s n)
  | inr (i, n) ↦
      let (whole, last) = last_index_of-CutAt b'@' s i n in
      rw (after_last_at, n)
        (
          take i s ++ b'@' ∷ [],
          whole ∙ sym (append_assoc (take i s) (b'@' ∷ []) (drop (suc i) s)),
          inr (take i s, refl),
          last,
        )
]

-- What stands after it.
pub without_any_port-port :
    (s : Str)
    → (port : Str) × (s ≡ without_any_port s ++ port)
      × ((port ≡ []) ⊎ ((ds : Str) × (port ≡ b':' ∷ ds) × (all is_digit ds ≡ true)))
unfolding without_any_port
without_any_port-port s = elim (Option-cases (last_index_of b':' s)) [
  | inl n ↦ rw (without_any_port, n) ([], sym (append-nil s), inl refl)
  | inr (i, n) ↦ elim (Bool-cases (all is_digit (drop (suc i) s))) [
    | inl e ↦
        rw (without_any_port, n, e)
          (b':' ∷ drop (suc i) s, (last_index_of-CutAt b':' s i n).0, inr (drop (suc i) s, refl, e))
    | inr e ↦ rw (without_any_port, n, e) ([], sym (append-nil s), inl refl)
  ]
]
