-- ===== src/Session.antt =====
-- session/observer.go and session/scope.go: the metadata that a context carries, and the report of
-- each protocol write to the observer. A writer, an observer and an identity are values of the
-- types `W`, `O` and `I`; nil is `none`, and a context is the scope that it carries, if any.
pub mod Scopes
mod Runs
use raidan_sdk.Prelude.{
  ℕ, zero, suc, ◌-◌, ◌<◌, Bool, true, false, Option, none, some, List, [], ◌∷◌, Bytes, ltb, leb,
  if◌then◌else◌,
}

-- The description of one write that a session reports.
pub record Write : Type 0 where
  pub protocol : Bytes
  pub code : ℕ
  pub protocol_id : Bytes
  pub topic : Bytes
  pub payload : Bytes
  pub raw : Bool

pub record Scope (W O I : Type 0) : Type 0 where
  pub output : Option W
  pub client : Bytes
  pub observer : Option O
  pub identities : List (Option I)
  pub verbose : Bool
  pub quiet : Bool

abbrev pub Context : Type 0 → Type 0 → Type 0 → Type 0
Context W O I = Option (Scope W O I)

-- Go's `if a == nil { a = b }`.
abbrev pub or_parent : {A : Type 0} → Option A → Option A → Option A
or_parent none parent = parent
or_parent (some a) parent = some a

abbrev or_bytes : Bytes → Bytes → Bytes
or_bytes [] parent = parent
or_bytes (b ∷ s) parent = b ∷ s

abbrev or_list : {A : Type 0} → List A → List A → List A
or_list [] parent = parent
or_list (a ∷ l) parent = a ∷ l

abbrev get_elem? : {A : Type 0} → List A → ℕ → Option A
get_elem? [] i = none
get_elem? (x ∷ xs) zero = some x
get_elem? (x ∷ xs) (suc i) = get_elem? xs i

-- A list entry that is there and is not nil.
abbrev join : {I : Type 0} → Option (Option I) → Option I
join none = none
join (some i) = i

-- The call of an observer that is there.
abbrev pub deliver : {O : Type 0} → Option O → Write → List Write
deliver none w = []
deliver (some o) w = w ∷ []

module _ {W O I : Type 0} where
  abbrev pub empty_scope : Scope W O I
  empty_scope = record {
    output = none;
    client = [];
    observer = none;
    identities = [];
    verbose = false;
    quiet = false;
  }

  unfoldable pub scope_from : Context W O I → Scope W O I
  scope_from none = empty_scope
  scope_from (some s) = s

  unfoldable pub with_scope : Context W O I → Scope W O I → Context W O I
  with_scope ctx scope =
      let parent = scope_from ctx in
      some (record {
        output = or_parent scope.output parent.output;
        client = or_bytes scope.client parent.client;
        observer = or_parent scope.observer parent.observer;
        identities = or_list scope.identities parent.identities;
        verbose = if scope.quiet then false else if scope.verbose then true else parent.verbose;
        quiet = scope.quiet;
      })

  -- The error is "participant identity is not configured". An index is an `int`, so a negative one
  -- is refused too: it is no value here.
  unfoldable pub participant_identity_at : Context W O I → ℕ → Option I
  participant_identity_at ctx index = join (get_elem? (scope_from ctx).identities index)

  -- What the observer receives: a copy of the write, or nothing where there is no observer.
  unfoldable pub observe_write : Context W O I → Write → List Write
  observe_write ctx write = deliver (scope_from ctx).observer write

-- The time left before the deadline, or `fallback` where there is none (session/time.go). A duration
-- is a number of nanoseconds, and `now` the moment of the call.
unfoldable pub remaining : Option ℕ → ℕ → ℕ → ℕ
remaining none now fallback = fallback
remaining (some deadline) now fallback = if leb deadline now then 0 else deadline - now
