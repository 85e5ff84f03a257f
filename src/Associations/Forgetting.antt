-- ===== src/Associations/Forgetting.antt =====
-- What forgetting takes from the store.
use dms_bitwarden_cli.Common.{
  ◌≡◌, refl, inl, inr, Bool, true, false, not, ◌&&◌, Option, none, some, List, [], ◌∷◌, arith,
  Bool-cases, drop, is_empty, filter, any, All, All-map, All-filter, Str, ◌===◌, ===_refl,
}
use dms_bitwarden_cli.Associations.{Entry, Keys, lookup}
use dms_bitwarden_cli.Associations.Store.{
  WindowContext, ContextKey, context_keys, association_entry_counts, is_same, is_dropped,
  forget_association,
}
use dms_bitwarden_cli.Associations.Matches.{is_associated_in, is_associated}
use dms_bitwarden_cli.Associations.Parsing.{lookup-All}
use dms_bitwarden_cli.Associations.Learning.{any_true}

entry_misses :
    (keys : Keys) (item_id : Str) (drop : List ContextKey) (c : ContextKey) (o : Option Entry)
    → is_empty item_id ≡ false
    → All (λ p. is_dropped drop item_id p ≡ false) keys
    → any (λ d. d.key === c.key) drop ≡ true
    → lookup c.key keys ≡ o
    → association_entry_counts c.key o && is_same item_id o ≡ false
unfolding association_entry_counts is_same
entry_misses keys item_id drop c none h kept own f = refl
entry_misses keys item_id drop c (some e) h kept own f =
    ground (arith, lookup-All (λ p. is_dropped drop item_id p ≡ false) c.key e keys kept f, own, h)

not_associated :
    (keys : Keys) (item_id : Str) (drop cs : List ContextKey)
    → is_empty item_id ≡ false
    → All (λ p. is_dropped drop item_id p ≡ false) keys
    → All (λ c. any (λ d. d.key === c.key) drop ≡ true) cs
    → is_associated_in keys item_id cs ≡ false
unfolding is_associated_in
not_associated keys item_id drop [] h kept own = refl
not_associated keys item_id drop (c ∷ cs) h kept own =
    rw
      (
        entry_misses keys item_id drop c (lookup c.key keys) h kept own.0 refl,
        not_associated keys item_id drop cs h kept own.1,
      )
      refl

own_keys : (cs : List ContextKey) → All (λ c. any (λ d. d.key === c.key) cs ≡ true) cs
unfolding any
own_keys [] = tt
own_keys (c ∷ cs) = (rw (===_refl c.key) refl, All-map (λ d h. ground (arith, h)) cs (own_keys cs))

negated : (b : Bool) → not b ≡ true → b ≡ false
negated b h = ground arith

forgotten :
    (keys : Keys) (ctx : WindowContext) (item_id : Str)
    → is_empty item_id ≡ false
    → is_associated_in (forget_association keys ctx item_id) item_id (context_keys ctx true) ≡ false
unfolding forget_association
forgotten keys ctx item_id h =
    let kept : Str × Entry → Bool = λ p. not (is_dropped (context_keys ctx true) item_id p) in
    not_associated (filter kept keys) item_id (context_keys ctx true) (context_keys ctx true) h
      (All-map (λ p k. negated (is_dropped (context_keys ctx true) item_id p) k.1)
        (filter kept keys) (All-filter (λ p. Unit) kept keys (any_true keys)))
      (own_keys (context_keys ctx true))

-- What is forgotten for a window is no longer suggested there, whether it was learned by its site,
-- its program or its title.
pub forget_association_forgets :
    (keys : Keys) (ctx : WindowContext) (item_id : Str)
    → is_associated (forget_association keys ctx item_id) ctx item_id ≡ false
unfolding is_associated
forget_association_forgets keys ctx item_id = elim (Bool-cases (is_empty item_id)) [
  | inl e ↦ rw e refl
  | inr e ↦ rw (e, forgotten keys ctx item_id e) refl
]
