-- ===== src/Examples/Shared.antt =====
-- Small sets, retries and a loader, for the tests of the shared packages.
use shopble_stellar.Common.{ℕ, ◌+◌, String, ◌≡◌, refl, Option, some, arith, nat_eq, string_eq}
use shopble_stellar.Common.{eq_iff, ◌≢◌, true, none, ◌≤◌, [], ◌∷◌, subst}
use shopble_stellar.Common.Int.{ℤ, pos, ◌-ℤ◌, IsInt64}
use mathlib.Core.Option.{some-injective}
use shopble_stellar.Glib.Secret.{Bytes, Aead, Crypto, Result, aes_decrypt}
use shopble_stellar.Middleware.{
  Request, Forwarded, validate_timestamp, verify_request, verify_request-next,
}
use shopble_stellar.Shared.Singleton.Interleaved.{
  Load, Goroutines, Position, Step, Steps, move_to, unasked,
}
use shopble_stellar.Shared.Singleton.Interleaved.Laws.{get-once}

abbrev posted : Request
posted = record { method = "POST"; content_type = "text/plain"; body = "abcd"; content_length = 4 }

abbrev opened : Request
opened = record {
  method = "POST";
  content_type = "application/json";
  body = "{}";
  content_length = 4;
}

method_differs : posted.method ≢ "GET"
method_differs e = cc ((eq_iff "POST" "GET").1 e)

-- A cipher that only puts a nonce of zeros before the text.
abbrev plain : Aead
plain = record { nonce_size = 2; seal = λ nonce buff. buff; open_sealed = λ nonce buff. some buff }

abbrev crypto : Crypto String ℕ
crypto = record {
  new_gcm = λ key. some plain;
  random = λ n x. (none, x);
  encode = λ b. "";
  decode = λ t. some (0 ∷ 0 ∷ 7 ∷ []);
}

abbrev stamp : Bytes → Option ℤ
stamp b = some (pos 40000)

stamp-IsInt64 : (b : Bytes) (t : ℤ) → stamp b ≡ some t → IsInt64 t
stamp-IsInt64 b t h = subst (λ z. IsInt64 z) (some-injective _ _ h) (omega arith, omega arith)

verify_request_example :
    (decrypted : Bytes) × (aes_decrypt crypto [] "abcd" ≡ Result.fine decrypted)
    × Forwarded crypto []
        (λ b. "{}")
        stamp
        50000
        (omega arith)
        stamp-IsInt64
        posted
        opened
        decrypted
unfolding verify_request validate_timestamp aes_decrypt ◌-ℤ◌
verify_request_example =
    verify_request-next crypto [] (λ b. "{}") stamp 50000 (omega arith) stamp-IsInt64 posted
      {r' = opened} method_differs refl (omega arith) refl

abbrev squares : ℕ → Load ℕ
squares n = Load.gives (n + 7)

abbrev first_load : Goroutines ℕ
first_load = record {
  is_loaded = true;
  instance_value = 7;
  mux = none;
  calls = 0 + 1;
  loads = 0 + 1;
  position = move_to 0 (Position.returned 7) (
      move_to 0 Position.stored
        (move_to 0 Position.locked_in (move_to 0 Position.waiting (λ j. Position.outside))));
}

abbrev first_steps : Steps squares (unasked squares 0) first_load
first_steps =
    Steps.one_more
      (Steps.one_more
        (Steps.one_more (Steps.one_more Steps.at_start (Step.sees_unloaded 0 refl refl))
          (Step.locks 0 refl refl))
        (Step.loads_it 0 7 refl refl refl))
      (Step.marks 0 refl)

get_once_example :
    (first_load.loads ≤ 1)
    × ((i j v w : ℕ)
        → first_load.position i ≡ Position.returned v
        → first_load.position j ≡ Position.returned w
        → v ≡ w)
get_once_example = get-once squares 0 first_load first_steps
