-- ===== src/Glib/Media/Clients.antt =====
-- glib/gmedia/manager.go and config.go: the table of loaders, and which client a caller gets. A map
-- is a function, and the map of clients is the one that the singleton keeps. `M` is the type of what
-- a loader returns: a function that connects.
pub mod Laws
use shopble_stellar.Common.{
  String, Bool, true, false, Option, none, some, List, [], ◌∷◌, ◌==◌, string_eq, if◌then◌else◌,
}
use shopble_stellar.Glib.Media.{ConfigMeta}

-- `ConfigMetaIdx`, a string
abbrev pub idx_default : String
idx_default = "default"

-- The sections of the configuration that are there.
pub record Config : Type 0 where
  pub local : Option ConfigMeta
  pub google : Option ConfigMeta
  pub s3 : Option ConfigMeta
  pub minio : Option ConfigMeta

abbrev pub add_section :
    String → Option ConfigMeta → List (String × ConfigMeta) → List (String × ConfigMeta)
add_section idx none rest = rest
add_section idx (some meta) rest = (idx, meta) ∷ rest

-- The map of `vConfig`, as its entries.
unfoldable pub config_map : Config → List (String × ConfigMeta)
config_map conf =
    add_section "google" conf.google (
      add_section "s3" conf.s3 (add_section "minio" conf.minio (add_section "local" conf.local [])))

abbrev pub Table : Type 0 → Type 0
Table M = String → Option M

module _ {M : Type 0} where
  abbrev pub put : String → M → Table M → Table M
  put idx m table j = if idx == j then some m else table j

  -- `RegisterMediaClientLoader`: `none` is the panic.
  unfoldable pub register_media_client_loader : String → M → Table M → Option (Table M)
  register_media_client_loader idx loader loaders = elim (loaders idx) [
    | none ↦ some (put idx loader loaders)
    | some old ↦ none
  ]

  -- One entry of the configuration: its client, and once more as the default one.
  load_entry : String → ConfigMeta → M → Table M → Table M
  load_entry idx meta client clients =
      if meta.is_default
      then put idx_default client (put idx client clients)
      else put idx client clients

module _ {L M : Type 0} (connect : L → ConfigMeta → M) where
  -- The loop of `vCLientLoader` over the entries in the order that the map gives them: a section
  -- with no loader is a call of a nil function, a panic.
  unfoldable pub load_clients : Table L → List (String × ConfigMeta) → Table M → Option (Table M)
  unfolding load_entry
  load_clients loaders [] clients = some clients
  load_clients loaders ((idx, meta) ∷ rest) clients = elim (loaders idx) [
    | none ↦ none
    | some loader ↦ load_clients loaders rest (load_entry idx meta (connect loader meta) clients)
  ]

-- `GetClient`: the first platform that is named, or the default one. A platform that is not
-- configured is a call of a nil function: `none` is the panic.
unfoldable pub get_client : {M : Type 0} → Table M → List String → Option M
get_client clients [] = clients idx_default
get_client clients (platform ∷ rest) = clients platform
