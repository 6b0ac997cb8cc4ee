-- ===== src/Session/Scopes.antt =====
-- Nested scopes: what an inner scope inherits.
use raidan_sdk.Prelude.{
  Bool, true, false, Option, none, some, List, [], ◌∷◌, Bytes, if◌then◌else◌, ◌≡◌, refl,
}
use raidan_sdk.Session.{Scope, Context, or_parent, or_bytes, or_list, scope_from, with_scope}

same_parent : {A : Type 0} (a p : Option A) → or_parent a (or_parent a p) ≡ or_parent a p
same_parent none p = refl
same_parent (some x) p = refl

same_bytes : (a p : Bytes) → or_bytes a (or_bytes a p) ≡ or_bytes a p
same_bytes [] p = refl
same_bytes (x ∷ a) p = refl

same_list : {A : Type 0} (a p : List A) → or_list a (or_list a p) ≡ or_list a p
same_list [] p = refl
same_list (x ∷ a) p = refl

same_flag :
    (quiet verbose p : Bool)
    → (if quiet
        then false
        else if verbose
        then true
        else (if quiet then false else if verbose then true else p))
      ≡ (if quiet then false else if verbose then true else p)
same_flag true v p = refl
same_flag false true p = refl
same_flag false false p = refl

module _ {W O I : Type 0} where
  -- Entering a scope a second time changes nothing.
  pub with_scope_twice :
      (ctx : Context W O I) (s : Scope W O I) → with_scope (with_scope ctx s) s ≡ with_scope ctx s
  unfolding with_scope scope_from
  with_scope_twice ctx s =
      let p : Scope W O I = scope_from ctx in
      rw (
        same_parent s.output p.output,
        same_bytes s.client p.client,
        same_parent s.observer p.observer,
        same_list s.identities p.identities,
        same_flag s.quiet s.verbose p.verbose,
      )
