-- ===== src/Session/Runs.antt =====
-- Runs of the scopes.
use raidan_sdk.Prelude.{ℕ, true, false, none, some, [], ◌∷◌, codes}
use raidan_sdk.Session.{Scope, Context}

abbrev outer : Context ℕ ℕ ℕ
outer = some (record {
  output = some 1;
  client = codes "geth";
  observer = none;
  identities = some 5 ∷ [];
  verbose = true;
  quiet = false;
})

abbrev inner : Scope ℕ ℕ ℕ
inner = record {
  output = none;
  client = [];
  observer = some 2;
  identities = [];
  verbose = false;
  quiet = false;
}
