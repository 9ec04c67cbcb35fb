-- ===== src/Examples/Requests.antt =====
-- A server that answers nothing but 404 and an empty body, and a writer of forms.
use shopble_stellar.Common.{ℕ, ◌≡◌, refl, true, none, some, List, [], ◌∷◌, string_eq}
use shopble_stellar.Stellar.Text.{contains}
use shopble_stellar.Shared.Restful.{RequestOption, HttpAnswer, Net, method_selector}
use shopble_stellar.Shared.Restful.Setters.{
  Multipart, Setter, form_data, set_option, set_options, v2_body,
}
use shopble_stellar.Shared.Restful.V2.{request_v2, Sent, request_v2-Sent}

abbrev gone : HttpAnswer
gone = record { status_code = 404; body = some [] }

abbrev net : Net ℕ ℕ ℕ
net = record {
  marshal = λ v. none;
  text_map = λ v. none;
  form_url = λ pairs. [];
  form_multipart = λ pairs. none;
  new_request = λ method url. true;
  call = λ req x. (some gone, x);
  unmarshal = λ b. none;
}

abbrev option : RequestOption ℕ
option = record { method = 1; url = "http://a"; header = []; body = none }

abbrev writer : Multipart ℕ
writer = record {
  new_writer = 0;
  form_file = λ name file f. some f;
  write_field = λ name value f. some f;
  close = λ f. some f;
  content_type = λ f. "multipart/form-data; boundary=b";
  bytes = λ f. [];
}

writer_typed : (f : ℕ) → contains (writer.content_type f) form_data ≡ true
unfolding contains
writer_typed f = refl

abbrev one_field : List Setter
one_field = Setter.with_form_field "name" "value" ∷ []

request_v2_example : Sent net writer writer_typed option one_field 0 gone
unfolding request_v2 set_option set_options v2_body contains method_selector
request_v2_example = request_v2-Sent net writer writer_typed option one_field 0 gone refl
