-- ===== src/Shared/Restful/V2.antt =====
-- RequestRaw and RequestV2 of common/comrestful/manager.go, and Decode of a result.
use shopble_stellar.Common.{
  ℕ, String, ◌≡◌, refl, sym, ◌∙◌, inl, inr, Bool-cases, true, not, Option, Option-cases, none, some,
  List, ◌==◌, nat_eq, string_eq, if◌then◌else◌,
}
use shopble_stellar.Stellar.Text.{contains}
use shopble_stellar.Shared.Restful.{
  RequestOption, HttpRequest, HttpAnswer, Net, method_selector, Prepared, no_method, no_encoder,
  bad_value, not_encoded, not_created, ready, prepare,
}
use shopble_stellar.Shared.Restful.Setters.{
  Multipart, V2Option, no_option, form_data, Setter, set_options, v2_body,
}
use shopble_stellar.Shared.Restful.Setters.Laws.{Sends, set_options-Sends}

-- A panic, an error, or the answer of the server.
pub data Response : Type 0 where
  panicked failed : Response
  answered : HttpAnswer → Response

-- `Decode`: the errors of reading, of a result that is an error, and of parsing.
pub data Decoded (W : Type 0) : Type 0 where
  not_read not_parsed : Decoded W
  request_failed : List ℕ → Decoded W
  parsed : W → Decoded W

module _ {V W X : Type 0} (net : Net V W X) where
  raw_answer : Option HttpAnswer × X → Response × X
  raw_answer (none, x) = (failed, x)
  raw_answer (some answer, x) = (if answer.status_code == 200 then answered answer else failed, x)

  raw_sent : Prepared → X → Response × X
  unfolding raw_answer
  raw_sent no_method x = (panicked, x)
  raw_sent no_encoder x = (panicked, x)
  raw_sent bad_value x = (panicked, x)
  raw_sent not_encoded x = (failed, x)
  raw_sent not_created x = (failed, x)
  raw_sent (ready req) x = raw_answer (net.call req x)

  -- `RequestRaw`
  unfoldable pub request_raw : RequestOption V → X → Response × X
  unfolding raw_sent
  request_raw option x = raw_sent (prepare net option) x

  v2_answer : Option HttpAnswer × X → Response × X
  v2_answer (none, x) = (failed, x)
  v2_answer (some answer, x) = (answered answer, x)

  abbrev v2_request : RequestOption V → String → Option (List ℕ) → String → HttpRequest
  v2_request option method body content_type = record {
    method = method;
    url = option.url;
    header = option.header;
    body = body;
    content_type = if not (content_type == "") then some content_type else none;
  }

  v2_send : RequestOption V → String → Option (Option (List ℕ) × String) → X → Response × X
  unfolding v2_answer
  v2_send option method none x = (failed, x)
  v2_send option method (some (body, content_type)) x =
      if net.new_request method option.url
      then v2_answer (net.call (v2_request option method body content_type) x)
      else (failed, x)

  module _ {F : Type 0} (mp : Multipart F) where
    v2_set : RequestOption V → String → Option (V2Option F) → X → Response × X
    unfolding v2_send
    v2_set option method none x = (failed, x)
    v2_set option method (some opt) x = v2_send option method (v2_body mp opt) x

    -- `RequestV2`
    unfoldable pub request_v2 : RequestOption V → List Setter → X → Response × X
    unfolding v2_set
    request_v2 option setters x = elim (method_selector option.method) [
      | none ↦ (panicked, x)
      | some method ↦ v2_set option method (set_options mp setters no_option) x
    ]

  parsed_or : Option W → Decoded W
  parsed_or none = not_parsed
  parsed_or (some out) = parsed out

  -- `RequestV2Result.Decode`
  unfoldable pub decode : HttpAnswer → Decoded W
  unfolding parsed_or
  decode answer = elim (answer.body) [
    | none ↦ not_read
    | some buff ↦
        if not (answer.status_code == 200)
        then request_failed buff
        else parsed_or (net.unmarshal buff)
  ]

  module _ {F : Type 0} (mp : Multipart F)
      (typed : (f : F) → contains (mp.content_type f) form_data ≡ true) where
    -- The request that the server has answered.
    pub record Sent (option : RequestOption V) (setters : List Setter) (x : X) (answer : HttpAnswer)
        : Type 0 where
      pub method : String
      pub body : Option (List ℕ)
      pub content_type : String
      pub named : method_selector option.method ≡ some method
      pub sends : Sends mp typed setters (some (body, content_type))
      pub called : (net.call (v2_request option method body content_type) x).0 ≡ some answer

    v2_answer-answered :
        (r : Option HttpAnswer × X) (answer : HttpAnswer)
        → (v2_answer r).0 ≡ answered answer
        → r.0 ≡ some answer
    unfolding v2_answer
    v2_answer-answered (none, x) answer h = cc
    v2_answer-answered (some other, x) answer h = cc

    v2_send-Sent :
        (option : RequestOption V) (setters : List Setter) (x : X) (answer : HttpAnswer)
        (method : String) (body : Option (Option (List ℕ) × String))
        → method_selector option.method ≡ some method
        → Sends mp typed setters body
        → (v2_send option method body x).0 ≡ answered answer
        → Sent option setters x answer
    unfolding v2_send
    v2_send-Sent option setters x answer method none named sends h = cc
    v2_send-Sent option setters x answer method (some (body, content_type)) named sends h =
        elim (Bool-cases (net.new_request method option.url)) [
          | inl created ↦
              let goes_on : (v2_send option method (some (body, content_type)) x).0
                  ≡ (v2_answer (net.call (v2_request option method body content_type) x)).0 =
                rw created refl in
              record {
                method = method;
                body = body;
                content_type = content_type;
                named = named;
                sends = sends;
                called = v2_answer-answered _ answer (sym goes_on ∙ h);
              }
          | inr refused ↦
              let stop : (v2_send option method (some (body, content_type)) x).0 ≡ failed =
                rw refused refl in
              cc (stop, h)
        ]

    v2_set-Sent :
        (option : RequestOption V) (setters : List Setter) (x : X) (answer : HttpAnswer)
        (method : String) (opt : Option (V2Option F))
        → method_selector option.method ≡ some method
        → set_options mp setters no_option ≡ opt
        → (v2_set mp option method opt x).0 ≡ answered answer
        → Sent option setters x answer
    unfolding v2_set
    v2_set-Sent option setters x answer method none named set h = cc
    v2_set-Sent option setters x answer method (some opt) named set h =
        v2_send-Sent option setters x answer method (v2_body mp opt) named
          (set_options-Sends mp typed setters opt set) h

    -- When every content type of the form writer is that of a form, a result of RequestV2 is
    -- the server's answer to a request of one kind: with the JSON of the last `WithJSON` and no
    -- other setter but such, with the form of the parts of all setters, in order, and only form
    -- setters, or with no body and no setter; and its content type is that of its body.
    pub request_v2-Sent :
        (option : RequestOption V) (setters : List Setter) (x : X) (answer : HttpAnswer)
        → (request_v2 mp option setters x).0 ≡ answered answer
        → Sent option setters x answer
    unfolding request_v2
    request_v2-Sent option setters x answer h =
        elim (Option-cases (method_selector option.method)) [
          | inl unknown ↦
              let stop : (request_v2 mp option setters x).0 ≡ panicked =
                rw (request_v2, unknown) refl in
              cc (stop, h)
          | inr (method, named) ↦
              let goes_on : (request_v2 mp option setters x).0
                  ≡ (v2_set mp option method (set_options mp setters no_option) x).0 =
                rw (request_v2, named) refl in
              v2_set-Sent option setters x answer method _ named refl (sym goes_on ∙ h)
        ]
