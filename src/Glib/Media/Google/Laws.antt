-- ===== src/Glib/Media/Google/Laws.antt =====
-- A client of Google uploads once.
use shopble_stellar.Common.{String, ◌≡◌, ◌≢◌, refl, none, ◌==◌, string_eq, eq_iff, false, arith}
use shopble_stellar.Glib.Media.{MediaMeta, panics, crashes}
use shopble_stellar.Glib.Media.Google.{Gcs, StorageGoogle, upload_file, close}

module _ {C W R E X : Type 0} (gcs : Gcs C W R E X)
    (nil_crashes : (b path : String) (x : X) → gcs.new_writer none b path x ≡ (crashes, x)) where
  -- When a call of a nil client panics, a storage uploads once: after any upload, also one that was
  -- refused for its empty name, the next upload of a file with a name panics.
  pub upload_file-once :
      (s : StorageGoogle C) (first second : MediaMeta R) (x y : X)
      → second.file_name ≢ ""
      → let s' = (upload_file gcs s first x).1.0 in
        (s'.client ≡ none) × ((upload_file gcs s' second y).0 ≡ panics)
  unfolding upload_file close
  upload_file-once s first second x y name =
      let named : (second.file_name == "") ≡ false = ground (arith, eq_iff second.file_name "") in
      (refl, rw (named, nil_crashes))
