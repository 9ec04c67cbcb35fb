-- ===== src/Glib/Media/Clients/Laws.antt =====
-- Which clients a caller can get.

use shopble_stellar.Common.{
  String, ◌≡◌, ◌≢◌, inl, inr, Bool, true, false, not, ◌&&◌, ◌||◌, Option, Option-cases, none, some,
  List, [], ◌∷◌, All, ◌==◌, string_eq, eq_iff, arith, if◌then◌else◌,
}
use shopble_stellar.Glib.Media.{ConfigMeta}
use shopble_stellar.Glib.Media.Clients.{
  Config, Table, idx_default, add_section, config_map, load_clients, get_client, put,
}

abbrev pub panicked : {M : Type 0} → Option M → Bool
panicked none = true
panicked (some m) = false

-- Whether there is a section of this name, and whether one is marked as the default.
abbrev pub configured : String → List (String × ConfigMeta) → Bool
configured platform [] = false
configured platform ((idx, meta) ∷ rest) = idx == platform || configured platform rest

abbrev pub has_default : List (String × ConfigMeta) → Bool
has_default [] = false
has_default ((idx, meta) ∷ rest) = meta.is_default || has_default rest

abbrev Proper : List (String × ConfigMeta) → Type 0
Proper = All (λ (e : String × ConfigMeta). (e.0 == idx_default) ≡ false)

module _ {L M : Type 0} (connect : L → ConfigMeta → M) (loaders : Table L) where
  -- A loop that does not panic has found a loader for its first entry.
  load_first :
      (idx : String) (meta : ConfigMeta) (rest : List (String × ConfigMeta)) (clients : Table M)
      {result : Table M}
      → load_clients connect loaders ((idx, meta) ∷ rest) clients ≡ some result
      → (m : M) × (load_clients connect loaders rest
            (if meta.is_default then put idx_default m (put idx m clients) else put idx m clients)
          ≡ some result)
  unfolding load_clients
  load_first idx meta rest clients done = elim (Option-cases (loaders idx)) [
    | inl missing ↦ absurd (ground (arith, missing, done))
    | inr (loader, there) ↦ (connect loader meta, rw (load_clients, there) at done)
  ]

  loaded_platform :
      (entries : List (String × ConfigMeta)) (clients : Table M) {result : Table M}
      (platform : String)
      → load_clients connect loaders entries clients ≡ some result
      → (idx_default == platform) ≡ false
      → panicked (result platform)
        ≡ (panicked (clients platform) && not (configured platform entries))
  loaded_platform [] clients platform done other = unfold load_clients in ground arith
  loaded_platform ((idx, meta) ∷ rest) clients platform done other =
      let (m, loaded) = load_first idx meta rest clients done in
      let ih = loaded_platform rest _ platform loaded other in ground (arith, ih)

  loaded_default :
      (entries : List (String × ConfigMeta)) (clients : Table M) {result : Table M}
      → load_clients connect loaders entries clients ≡ some result
      → Proper entries
      → panicked (result idx_default)
        ≡ (panicked (clients idx_default) && not (has_default entries))
  loaded_default [] clients done fine = unfold load_clients in ground arith
  loaded_default ((idx, meta) ∷ rest) clients done (named, fine) =
      let (m, loaded) = load_first idx meta rest clients done in
      let ih = loaded_default rest _ loaded fine in
      ground (arith, ih, eq_iff idx_default idx_default)

Proper-add_section :
    (idx : String) (o : Option ConfigMeta) (rest : List (String × ConfigMeta))
    → (idx == idx_default) ≡ false
    → Proper rest
    → Proper (add_section idx o rest)
Proper-add_section idx none rest named fine = fine
Proper-add_section idx (some meta) rest named fine = (named, fine)

config_map-Proper : (conf : Config) → Proper (config_map conf)
unfolding config_map
config_map-Proper conf =
    Proper-add_section "google" conf.google _ (ground (arith, eq_iff "google" "default")) (
      Proper-add_section "s3" conf.s3 _ (ground (arith, eq_iff "s3" "default")) (
        Proper-add_section "minio" conf.minio _ (ground (arith, eq_iff "minio" "default"))
          (Proper-add_section "local" conf.local [] (ground (arith, eq_iff "local" "default")) tt)))

-- When the clients have been loaded, `GetClient` of a platform panics exactly when the configuration
-- has no section of that name, and without a platform exactly when no section is the default.
pub get_client-panics_iff :
    {L M : Type 0} (connect : L → ConfigMeta → M) (loaders : Table L) (conf : Config)
    {clients : Table M}
    → load_clients connect loaders (config_map conf) (λ j. none) ≡ some clients
    → ((platform : String) (rest : List String)
        → platform ≢ idx_default
        → panicked (get_client clients (platform ∷ rest))
          ≡ not (configured platform (config_map conf)))
      × (panicked (get_client clients []) ≡ not (has_default (config_map conf)))
unfolding get_client
get_client-panics_iff connect loaders conf loaded = (
  λ platform rest other.
      loaded_platform connect loaders (config_map conf) (λ j. none) platform loaded
        (ground (arith, eq_iff idx_default platform)),
  loaded_default connect loaders (config_map conf) (λ j. none) loaded (config_map-Proper conf),
)
