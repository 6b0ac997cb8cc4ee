-- ===== src/Eth/Caps.antt =====
-- eth/caps.go: the capabilities that a client offers, which of them two peers agree on, and where each
-- agreed protocol starts in the message space. A Go map is an association list: its first entry for a
-- key counts, and it has one.
pub mod Negotiation
pub mod Offsets
mod Runs
use raidan_sdk.Prelude.{
  ℕ, zero, suc, ◌+◌, ◌-◌, ◌%◌, ◌^◌, Bool, true, false, not, ◌&&◌, ◌||◌, Option, none, some, List,
  [], ◌∷◌, ◌++◌, Bytes, codes, length, ltb, leb, ◌==◌, if◌then◌else◌, bytes_eq, bytes_lt,
}
use raidan_sdk.Prelude.Result.{Result, ok, err}

-- `p2p.Cap`.
pub record Cap : Type 0 where
  pub name : Bytes
  pub version : ℕ

pub record Config : Type 0 where
  pub max_version : ℕ
  pub snap_version : ℕ
  pub exact : List Cap

pub data ConfigError : Type 0 where
  exact_with_versions bad_max_version bad_snap_version : ConfigError
  unsupported_capability duplicate_capability : Cap → ConfigError

abbrev pub eth : Bytes
eth = codes "eth"

abbrev pub snap : Bytes
snap = codes "snap"

abbrev pub wit : Bytes
wit = codes "wit"

abbrev pub cap_eq : Cap → Cap → Bool
cap_eq a b = bytes_eq a.name b.name && a.version == b.version

-- Whether a name's version is in the set.
unfoldable pub has_cap : List Cap → Cap → Bool
has_cap [] c = false
has_cap (d ∷ ds) c = cap_eq d c || has_cap ds c

unfoldable pub supported_capability : Cap → Bool
supported_capability c =
    if bytes_eq c.name eth
    then leb 68 c.version && leb c.version 72
    else if bytes_eq c.name snap
    then c.version == 1 || c.version == 2
    else if bytes_eq c.name wit
    then c.version == 1
    else false

-- The loop of `validate`; `seen` is the set of the capabilities before.
unfoldable pub validate_capabilities : List Cap → List Cap → Option ConfigError
validate_capabilities seen [] = none
validate_capabilities seen (c ∷ cs) =
    let rest = validate_capabilities (c ∷ seen) cs in
    if not (supported_capability c)
    then some (unsupported_capability c)
    else if has_cap seen c
    then some (duplicate_capability c)
    else rest

unfoldable pub validate : Config → Option ConfigError
validate c =
    if not (length c.exact == 0) && (not (c.max_version == 0) || not (c.snap_version == 0))
    then some exact_with_versions
    else if not (c.max_version == 0) && (ltb c.max_version 68 || ltb 72 c.max_version)
    then some bad_max_version
    else if not (c.snap_version == 0) && not (c.snap_version == 1) && not (c.snap_version == 2)
    then some bad_snap_version
    else validate_capabilities [] c.exact

-- The loop counts down to 68 from a version that is at least 68; the argument is the rounds behind
-- the first.
unfoldable pub eth_capabilities_from : ℕ → List Cap
eth_capabilities_from zero = record { name = eth; version = 68 } ∷ []
eth_capabilities_from (suc n) = record { name = eth; version = 69 + n } ∷ eth_capabilities_from n

unfoldable pub eth_capabilities : ℕ → List Cap
eth_capabilities max_version = eth_capabilities_from (max_version - 68)

unfoldable pub capabilities : Config → List Cap
capabilities c =
    if not (length c.exact == 0)
    then c.exact
    else eth_capabilities (if c.max_version == 0 then 70 else c.max_version)
      ++ (if not (c.snap_version == 0)
          then record { name = snap; version = c.snap_version } ∷ []
          else [])

unfoldable pub protocol_length : ℕ → Option ℕ
protocol_length version =
    if version == 68
    then some 17
    else if version == 69 || version == 70
    then some 18
    else if version == 71
    then some 20
    else if version == 72
    then some 22
    else none

-- The map read `versions[name]`, zero for a missing name.
unfoldable pub version_of : List Cap → Bytes → ℕ
version_of [] name = 0
version_of (c ∷ cs) name = if bytes_eq c.name name then c.version else version_of cs name

unfoldable pub has_name : List Cap → Bytes → Bool
has_name [] name = false
has_name (c ∷ cs) name = bytes_eq c.name name || has_name cs name

-- The map write `versions[c.name] = c.version`.
unfoldable pub set_version : Cap → List Cap → List Cap
set_version c [] = c ∷ []
set_version c (d ∷ ds) = if bytes_eq d.name c.name then c ∷ ds else d ∷ set_version c ds

-- The first loop: the first local capability that is not supported.
unfoldable pub unsupported_local : List Cap → Option Cap
unsupported_local [] = none
unsupported_local (c ∷ cs) = if supported_capability c then unsupported_local cs else some c

-- The second loop: a remote capability that is offered locally and beats the version of its name.
unfoldable pub agreed_versions : List Cap → List Cap → List Cap → List Cap
agreed_versions local versions [] = versions
agreed_versions local versions (c ∷ cs) =
    agreed_versions local
      (if has_cap local c && ltb (version_of versions c.name) c.version
        then set_version c versions
        else versions)
      cs

-- `slices.Sort` of the names, each with its version.
unfoldable pub insert_name : Cap → List Cap → List Cap
insert_name c [] = c ∷ []
insert_name c (d ∷ ds) = if bytes_lt d.name c.name then d ∷ insert_name c ds else c ∷ d ∷ ds

unfoldable pub sort_names : List Cap → List Cap
sort_names [] = []
sort_names (c ∷ cs) = insert_name c (sort_names cs)

abbrev pub from_unsupported : List Cap → List Cap → Option Cap → Result Cap (List Cap)
from_unsupported local remote (some c) = err c
from_unsupported local remote none = ok (sort_names (agreed_versions local [] remote))

unfoldable pub negotiated_capabilities : List Cap → List Cap → Result Cap (List Cap)
negotiated_capabilities local remote = from_unsupported local remote (unsupported_local local)

unfoldable pub capability_protocol_length : Cap → Option ℕ
capability_protocol_length c =
    if bytes_eq c.name eth
    then protocol_length c.version
    else if bytes_eq c.name snap
    then (if c.version == 1 then some 8 else if c.version == 2 then some 10 else none)
    else if bytes_eq c.name wit
    then (if c.version == 1 then some 4 else none)
    else none

-- The error names the capability without a length; `ok none` is an absent name.
abbrev pub behind :
    ℕ → Cap → (ℕ → Result Cap (Option (ℕ × ℕ))) → Option ℕ → Result Cap (Option (ℕ × ℕ))
behind offset c more none = err c
behind offset c more (some len) = more ((offset + len) % 2 ^ 64)

unfoldable pub offset_from : ℕ → List Cap → Bytes → Result Cap (Option (ℕ × ℕ))
offset_from offset [] name = ok none
offset_from offset (c ∷ cs) name =
    if bytes_eq c.name name
    then ok (some (offset, c.version))
    else behind offset c (λ o. offset_from o cs name) (capability_protocol_length c)

-- The offset and the version of a name.
unfoldable pub capability_offset : List Cap → Bytes → Result Cap (Option (ℕ × ℕ))
capability_offset negotiated name = offset_from 16 negotiated name
