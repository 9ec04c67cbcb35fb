-- ===== src/Shared/Failure.antt =====
-- common/comerr, IsSameError of common/comutils/error.go and api/middleware/wrap_error.go. An
-- `OurError` is held by pointer, here a number, so errors are values over a heap of them. The texts
-- of stack traces come from github.com/go-errors/errors; formatting and logging are left out.
pub mod Laws
pub mod Wrapping
use shopble_stellar.Common.{
  ℕ, zero, suc, ◌+◌, String, ◌<>◌, Bool, true, false, not, Option, none, some, ◌==◌, ◌>>=◌, nat_eq,
  string_eq, if◌then◌else◌,
}

-- Any error that is not of this package, a `*OurError`, and an `OurErrorCode`.
pub data GoError : Type 0 where
  plain : String → GoError
  ours : ℕ → GoError
  coded : String → ℕ → GoError

pub record OurError (V : Type 0) : Type 0 where
  pub is_our_error : Bool
  pub actual : GoError
  pub message : String
  pub stack : Option String
  pub data_of : String → Option V

pub record Heap (V : Type 0) : Type 0 where
  pub cells : ℕ → OurError V
  pub size : ℕ

-- `errorX.Code()` of the codes that are told apart.
abbrev pub error_data_invalid : String
error_data_invalid = "error_data_invalid"

abbrev pub error_not_found : String
error_not_found = "error_not_found"

abbrev pub error_token_expired : String
error_token_expired = "error_token_expired"

abbrev pub error_server_unknown : String
error_server_unknown = "error_server_unknown"

abbrev pub err_or : Option GoError → String → GoError
err_or none msg = plain msg
err_or (some err) msg = err

-- `Merge` of two maps: the second one's values take the place of the first's.
abbrev pub merge_data : {V : Type 0} → (String → Option V) → (String → Option V) → String → Option V
merge_data src target key = elim (target key) [ none ↦ src key | some v ↦ some v ]

abbrev is_failure : GoError → Bool
is_failure (plain text) = false
is_failure (ours p) = true
is_failure (coded code p) = true

-- The `switch` on the error's code.
abbrev pub status_for : Bool → Bool → Bool → ℕ
status_for invalid missing expired =
    if invalid then 400 else if missing then 404 else if expired then 401 else 500

abbrev pub code_for : Bool → Bool → Bool → String
code_for invalid missing expired =
    if invalid
    then error_data_invalid
    else if missing
    then error_not_found
    else if expired
    then error_token_expired
    else error_server_unknown

-- What the middleware writes.
pub record ErrorResponse : Type 0 where
  pub http_code : ℕ
  pub error_code : String
  pub msg : String

module _ {V : Type 0} where
  abbrev pub set_cell : ℕ → OurError V → Heap V → Heap V
  set_cell p e h = record h { cells = λ q. if p == q then e else h.cells q }

  -- `NewOurError`, with the stack that `WrapStack` adds.
  abbrev pub new_our_error : GoError → String → Option String → Heap V → GoError × Heap V
  new_our_error err msg stack h = (
    ours h.size,
    record (set_cell h.size
        (record {
          is_our_error = true;
          actual = err;
          message = msg;
          stack = stack;
          data_of = λ key. none;
        })
        h) { size = h.size + 1 },
  )

  -- `WrapMessage`
  abbrev pub wrap_message : Option GoError → String → Heap V → GoError × Heap V
  wrap_message err msg h = new_our_error (err_or err msg) msg none h

  -- `WrapStack`, with the trace that the library takes
  abbrev pub wrap_stack : String → Option GoError → String → Heap V → GoError × Heap V
  wrap_stack trace err msg h = new_our_error (err_or err msg) msg (some trace) h

  -- `NewOurErrorCode`
  abbrev pub new_our_error_code : String → Heap V → GoError × Heap V
  new_our_error_code code h =
      let (err, h') = new_our_error (plain code) code none h in (coded code h.size, h')

  -- `OurErrorCode.Wrap`, of a code that points to `p`
  unfoldable pub wrap : String → ℕ → Option GoError → Heap V → GoError × Heap V
  wrap code p none h = (coded code p, h)
  wrap code p (some err) h = (coded code p, set_cell p (record (h.cells p) { actual = err }) h)

  -- `err.(comerr.Failure)`
  abbrev pub failure_of : Heap V → GoError → Option (OurError V)
  failure_of h (plain text) = none
  failure_of h (ours p) = some (h.cells p)
  failure_of h (coded code p) = some (h.cells p)

  -- `Error`: a cycle has no end, and no text.
  unfoldable pub error_text : ℕ → Heap V → GoError → Option String
  error_text zero h err = none
  error_text (suc fuel) h (plain text) = some text
  error_text (suc fuel) h (ours p) = elim (error_text fuel h (h.cells p).actual) [
    | none ↦ none
    | some inner ↦ some ((h.cells p).message <> (" | " <> inner))
  ]
  error_text (suc fuel) h (coded code p) = elim (error_text fuel h (h.cells p).actual) [
    | none ↦ none
    | some inner ↦ some ((h.cells p).message <> (" | " <> inner))
  ]

  -- `IsSameError`
  unfoldable pub is_same_error : ℕ → Heap V → String → GoError → Option Bool
  is_same_error zero h target err = none
  is_same_error (suc fuel) h target err = elim (failure_of h err) [
    | none ↦ some false
    | some e ↦ elim (e.is_our_error) [
      | false ↦ some false
      | true ↦ elim (e.message == target) [
        | true ↦ some true
        | false ↦ is_same_error fuel h target e.actual
      ]
    ]
  ]

  -- The inner `*OurError`, for `Stack` and `Data`, which do not look into a code.
  abbrev pub inner_error : Heap V → GoError → Option (OurError V)
  inner_error h (ours p) = some (h.cells p)
  inner_error h (plain text) = none
  inner_error h (coded code p) = none

  -- `OurError.Stack`, "" being no stack
  unfoldable pub stack : ℕ → Heap V → OurError V → Option String
  stack zero h e = none
  stack (suc fuel) h e = elim (e.is_our_error) [
    | false ↦ some ""
    | true ↦ elim (e.stack) [
      | some trace ↦ some trace
      | none ↦ elim (inner_error h e.actual) [ none ↦ some "" | some inner ↦ stack fuel h inner ]
    ]
  ]

  -- The loop of `OurError.Data`, with the data merged so far.
  unfoldable pub data_into :
      ℕ → Heap V → (String → Option V) → OurError V → Option (String → Option V)
  data_into zero h merged e = none
  data_into (suc fuel) h merged e = elim (e.is_our_error) [
    | false ↦ some merged
    | true ↦ elim (inner_error h e.actual) [
      | none ↦ some merged
      | some inner ↦
          data_into fuel h (if inner.is_our_error then merge_data merged inner.data_of else merged)
            inner
    ]
  ]

  -- `OurError.Data`
  unfoldable pub data_all : ℕ → Heap V → OurError V → Option (String → Option V)
  unfolding data_into
  data_all fuel h e = data_into fuel h e.data_of e

  -- `wrapError`
  unfoldable pub wrap_error : ℕ → Heap V → GoError → Option ErrorResponse
  unfolding is_same_error error_text
  wrap_error fuel h err = do
    invalid ← is_same_error fuel h error_data_invalid err
    missing ← is_same_error fuel h error_not_found err
    expired ← is_same_error fuel h error_token_expired err
    text ← error_text fuel h err
    some (record {
      http_code = if not (is_failure err) then 417 else status_for invalid missing expired;
      error_code = code_for invalid missing expired;
      msg = text;
    })
