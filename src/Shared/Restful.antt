-- ===== src/Shared/Restful.antt =====
-- common/comrestful: Request and RequestRaw of manager.go, methodSelector of helper.go. Bytes are
-- numbers. net/http, encoding/json, net/url and mime/multipart are the interface `Net`, which acts on an
-- unknown state.
pub mod Laws
pub mod Setters
pub mod V2
use shopble_stellar.Common.{
  ℕ, suc, ◌-◌, String, Bool, true, false, ◌&&◌, Option, none, some, List, [], ◌∷◌, length, take,
  leb, ltb, ◌==◌, nat_eq, if◌then◌else◌,
}

-- `Method` and `EncoderType` are ints.
pub record RequestOption (V : Type 0) : Type 0 where
  pub method : ℕ
  pub url : String
  pub header : List (String × String)
  pub body : Option (ℕ × V)

-- What is handed to net/http; the content type is the one of a form with parts.
pub record HttpRequest : Type 0 where
  pub method : String
  pub url : String
  pub header : List (String × String)
  pub body : Option (List ℕ)
  pub content_type : Option String

-- An answer, whose body may fail to be read.
pub record HttpAnswer : Type 0 where
  pub status_code : ℕ
  pub body : Option (List ℕ)

-- `marshal` is json.Marshal, and `text_map` the assertion that a value is a map[string]string, with its
-- pairs. What is written for the pairs is a parameter; a form with parts has a content type of its own.
pub record Net (V W X : Type 0) : Type 0 where
  pub marshal : V → Option (List ℕ)
  pub text_map : V → Option (List (String × String))
  pub form_url : List (String × String) → List ℕ
  pub form_multipart : List (String × String) → Option (List ℕ × String)
  pub new_request : String → String → Bool
  pub call : HttpRequest → X → Option HttpAnswer × X
  pub unmarshal : List ℕ → Option W

pub data Requested (W : Type 0) : Type 0 where
  panicked : Requested W
  failed : ℕ → Requested W
  refused : ℕ → List ℕ → Requested W
  answered : ℕ → Option W → Requested W

-- `methodSelector`, which panics on anything else.
unfoldable pub method_selector : ℕ → Option String
method_selector method =
    if method == 0
    then some "GET"
    else if method == 1
    then some "POST"
    else if method == 2
    then some "PUT"
    else if method == 3
    then some "DELETE"
    else none

-- What an encoder does: it gives a body, returns an error, or panics; or there is none of the type.
pub data Encoded : Type 0 where
  gives_body : List ℕ → Option String → Encoded
  gives_error encoder_panics unknown_type : Encoded

-- What is made of the option before the call: a panic, an error, or the request.
pub data Prepared : Type 0 where
  no_method no_encoder bad_value not_encoded not_created : Prepared
  ready : HttpRequest → Prepared

module _ {V W X : Type 0} (net : Net V W X) where
  created : RequestOption V → String → Option (List ℕ) → Option String → Prepared
  created option method body content_type =
      if net.new_request method option.url
      then ready (record {
        method = method;
        url = option.url;
        header = option.header;
        body = body;
        content_type = content_type;
      })
      else not_created

  json_encoded : Option (List ℕ) → Encoded
  json_encoded none = gives_error
  json_encoded (some body) = gives_body body none

  -- `data.(map[string]string)` panics on any other value.
  form_encoded : Option (List (String × String)) → Encoded
  form_encoded none = encoder_panics
  form_encoded (some pairs) = gives_body (net.form_url pairs) none

  parts_or_error : Option (List ℕ × String) → Encoded
  parts_or_error none = gives_error
  parts_or_error (some (body, content_type)) = gives_body body (some content_type)

  multipart_encoded : Option (List (String × String)) → Encoded
  unfolding parts_or_error
  multipart_encoded none = encoder_panics
  multipart_encoded (some pairs) = parts_or_error (net.form_multipart pairs)

  -- The encoder of a type, by the map of encoder.go: JSON, FormURL, FormMultipart.
  unfoldable pub encode : ℕ → V → Encoded
  unfolding json_encoded form_encoded multipart_encoded
  encode kind value =
      if kind == 0
      then json_encoded (net.marshal value)
      else if kind == 1
      then form_encoded (net.text_map value)
      else if kind == 2
      then multipart_encoded (net.text_map value)
      else unknown_type

  encoded : RequestOption V → String → Encoded → Prepared
  unfolding created
  encoded option method gives_error = not_encoded
  encoded option method encoder_panics = bad_value
  encoded option method unknown_type = no_encoder
  encoded option method (gives_body body content_type) =
      created option method (some body) content_type

  with_body : RequestOption V → String → Option (ℕ × V) → Prepared
  unfolding created encoded
  with_body option method none = created option method none none
  with_body option method (some (kind, value)) = encoded option method (encode kind value)

  -- The part that `Request` and `RequestRaw` share.
  unfoldable pub prepare : RequestOption V → Prepared
  unfolding with_body
  prepare option = elim (method_selector option.method) [
    | none ↦ no_method
    | some method ↦ with_body option method option.body
  ]

  -- `body[:length]` with the length that the code computes: it panics on an empty body.
  shown : ℕ → List ℕ → Requested W
  shown status body =
      if ltb (length body) 1024
      then (if length body == 0 then panicked else refused status (take (length body - 1) body))
      else refused status (take 1024 body)

  parsed : ℕ → Option W → Requested W
  parsed status none = failed status
  parsed status (some out) = answered status (some out)

  -- The status and the body that `do` returns; `wants` is whether there is an `out`.
  unfoldable pub conclude_request : Bool → ℕ → List ℕ → Requested W
  unfolding shown parsed
  conclude_request wants status body =
      if leb 200 status && leb status 299
      then (if wants then parsed status (net.unmarshal body) else answered status none)
      else shown status body

  -- `do`: on an error the status is 0.
  done : Bool → Option HttpAnswer × X → Requested W × X
  unfolding conclude_request
  done wants (none, x) = (failed 0, x)
  done wants (some answer, x) = elim (answer.body) [
    | none ↦ (failed 0, x)
    | some body ↦ (conclude_request wants answer.status_code body, x)
  ]

  sent_on : Bool → Prepared → X → Requested W × X
  unfolding done
  sent_on wants no_method x = (panicked, x)
  sent_on wants no_encoder x = (panicked, x)
  sent_on wants bad_value x = (panicked, x)
  sent_on wants not_encoded x = (failed 0, x)
  sent_on wants not_created x = (failed 0, x)
  sent_on wants (ready req) x = done wants (net.call req x)

  -- `Request`
  unfoldable pub request : Bool → RequestOption V → X → Requested W × X
  unfolding sent_on
  request wants option x = sent_on wants (prepare option) x
