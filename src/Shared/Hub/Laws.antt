-- ===== src/Shared/Hub/Laws.antt =====
-- Who is in a room, and what the channels hold, after any calls of the hub.
use shopble_stellar.Common.{
  ℕ, ◌≤◌, String, ◌≡◌, refl, sym, ap, ◌∙◌, inl, inr, Bool, Bool-cases, true, false, ◌&&◌, Option,
  none, some, List, [], ◌∷◌, length, length-append, ltb, ◌==◌, nat_eq, string_eq, eq_iff,
  if◌then◌else◌, arith,
}
use shopble_stellar.Shared.Hub.{
  Hub, clients_or_empty, new_hub, join, without, leave, sent, broadcast,
}

-- What happens at a hub; the last is a client that takes a message out of its channel.
pub data HubCall (M : Type 0) : Type 0 where
  joins leaves : ℕ → String → HubCall M
  broadcasts : String → M → HubCall M
  takes : ℕ → HubCall M

and_right : (a b : Bool) → (a && b) ≡ true → b ≡ true
and_right true b h = h
and_right false b h = cc

module _ {M : Type 0} where
  abbrev rest_of : List M → List M
  rest_of [] = []
  rest_of (m ∷ queue) = queue

  abbrev pub hub_call : HubCall M → Hub M → Hub M
  hub_call (joins c room) h = join c room h
  hub_call (leaves c room) h = leave c room h
  hub_call (broadcasts room msg) h = broadcast room msg h
  hub_call (takes c) h = record h { send = λ d. if c == d then rest_of (h.send d) else h.send d }

  abbrev pub hub_calls : List (HubCall M) → Hub M → Hub M
  hub_calls [] h = h
  hub_calls (call ∷ calls) h = hub_calls calls (hub_call call h)

  -- Whether a client is in a room: what the last of its calls about the room said, if there is one.
  abbrev pub after_call : ℕ → String → HubCall M → Bool → Bool
  after_call c room (joins d r) before = if (d == c) && (r == room) then true else before
  after_call c room (leaves d r) before = if (d == c) && (r == room) then false else before
  after_call c room (broadcasts r msg) before = before
  after_call c room (takes d) before = before

  abbrev pub is_member : ℕ → String → List (HubCall M) → Bool → Bool
  is_member c room [] before = before
  is_member c room (call ∷ calls) before = is_member c room calls (after_call c room call before)

  -- The two maps agree on this, and no channel holds more than it can.
  record Tracks (member : ℕ → String → Bool) (capacity : ℕ → ℕ) (h : Hub M) : Type 0 where
    pub rooms : (c : ℕ) (room : String) → clients_or_empty (h.rooms room) c ≡ member c room
    pub client_rooms : (c : ℕ) (room : String) → h.client_rooms c room ≡ member c room
    pub bound : (c : ℕ) → length (h.send c) ≤ capacity c
    pub channels : (c : ℕ) → h.capacity c ≡ capacity c

  module _ (member : ℕ → String → Bool) (capacity : ℕ → ℕ) (h : Hub M)
      (t : Tracks member capacity h) where
    join-rooms :
        (c d : ℕ) (room r : String)
        → clients_or_empty ((join c room h).rooms r) d
          ≡ (if (c == d) && (room == r) then true else member d r)
    unfolding join
    join-rooms c d room r = elim (Bool-cases (room == r)) [
      | inl same ↦
          let there : clients_or_empty (h.rooms room) d ≡ clients_or_empty (h.rooms r) d =
            ap (λ x. clients_or_empty (h.rooms x) d) ((eq_iff room r).0 same) in
          elim (Bool-cases (c == d)) [
            | inl here ↦ rw (same, here) refl
            | inr away ↦ rw (same, away) (there ∙ t.rooms d r)
          ]
      | inr other ↦ elim (Bool-cases (c == d)) [
        | inl here ↦ rw (other, here) (t.rooms d r)
        | inr away ↦ rw (other, away) (t.rooms d r)
      ]
    ]

    without-rooms :
        (c d : ℕ) (room r : String) (found : Option (ℕ → Bool))
        → h.rooms room ≡ found
        → clients_or_empty (without c room found h.rooms r) d
          ≡ (if (c == d) && (room == r) then false else clients_or_empty (h.rooms r) d)
    unfolding without
    without-rooms c d room r none absent = elim (Bool-cases ((c == d) && (room == r))) [
      | inl both ↦
          let here : room ≡ r = (eq_iff room r).0 (and_right (c == d) (room == r) both) in
          rw (both, ← here, absent) refl
      | inr not_both ↦ rw not_both refl
    ]
    without-rooms c d room r (some clients) present = elim (Bool-cases (room == r)) [
      | inl same ↦ elim (Bool-cases (c == d)) [
        | inl here ↦ rw (same, here) refl
        | inr away ↦
            let this_room : h.rooms r ≡ some clients =
              ap h.rooms (sym ((eq_iff room r).0 same)) ∙ present in
            rw (same, away, this_room) refl
      ]
      | inr other ↦ elim (Bool-cases (c == d)) [
        | inl here ↦ rw (other, here) refl
        | inr away ↦ rw (other, away) refl
      ]
    ]

    join-Tracks :
        (c : ℕ) (room : String)
        → Tracks (λ d r. after_call d r (joins c room) (member d r)) capacity (join c room h)
    unfolding join
    join-Tracks c room = record {
      rooms = λ d r. join-rooms c d room r;
      client_rooms =
          λ d r. ap (λ b. if (c == d) && (room == r) then true else b) (t.client_rooms d r);
      bound = t.bound;
      channels = t.channels;
    }

    leave-Tracks :
        (c : ℕ) (room : String)
        → Tracks (λ d r. after_call d r (leaves c room) (member d r)) capacity (leave c room h)
    unfolding leave
    leave-Tracks c room = record {
      rooms = λ d r.
          without-rooms c d room r (h.rooms room) refl
          ∙ ap (λ b. if (c == d) && (room == r) then false else b) (t.rooms d r);
      client_rooms =
          λ d r. ap (λ b. if (c == d) && (room == r) then false else b) (t.client_rooms d r);
      bound = t.bound;
      channels = t.channels;
    }

    sent_bound :
        (msg : M) (queue : List M) (n : ℕ) → length queue ≤ n → length (sent msg n queue) ≤ n
    unfolding sent
    sent_bound msg queue n room = elim (Bool-cases (ltb (length queue) n)) [
      | inl free ↦ let longer = length-append queue (msg ∷ []) in rw free (ground arith)
      | inr full ↦ rw full room
    ]

    broadcast-Tracks : (room : String) (msg : M) → Tracks member capacity (broadcast room msg h)
    unfolding broadcast
    broadcast-Tracks room msg = record {
      rooms = t.rooms;
      client_rooms = t.client_rooms;
      bound = λ c. elim (Bool-cases (clients_or_empty (h.rooms room) c)) [
        | inl here ↦
            let at_most = sent_bound msg (h.send c) (capacity c) (t.bound c) in
            rw (here, t.channels c) at_most
        | inr away ↦ rw away (t.bound c)
      ];
      channels = t.channels;
    }

    rest_of_bound : (queue : List M) (n : ℕ) → length queue ≤ n → length (rest_of queue) ≤ n
    rest_of_bound [] n room = room
    rest_of_bound (m ∷ queue) n room = omega arith

    hub_call-Tracks :
        (call : HubCall M)
        → Tracks (λ c r. after_call c r call (member c r)) capacity (hub_call call h)
    hub_call-Tracks (joins c room) = join-Tracks c room
    hub_call-Tracks (leaves c room) = leave-Tracks c room
    hub_call-Tracks (broadcasts room msg) = broadcast-Tracks room msg
    hub_call-Tracks (takes c) = record {
      rooms = t.rooms;
      client_rooms = t.client_rooms;
      bound = λ d. elim (Bool-cases (c == d)) [
        | inl here ↦ rw here (rest_of_bound (h.send d) (capacity d) (t.bound d))
        | inr away ↦ rw away (t.bound d)
      ];
      channels = t.channels;
    }

  hub_calls-Tracks :
      (calls : List (HubCall M)) (member : ℕ → String → Bool) (capacity : ℕ → ℕ) (h : Hub M)
      → Tracks member capacity h
      → Tracks (λ c r. is_member c r calls (member c r)) capacity (hub_calls calls h)
  hub_calls-Tracks [] member capacity h t = t
  hub_calls-Tracks (call ∷ calls) member capacity h t =
      hub_calls-Tracks calls (λ c r. after_call c r call (member c r)) capacity (hub_call call h)
        (hub_call-Tracks member capacity h t call)

  -- After any calls of a new hub, a client is in the hub's set of a room exactly when the room is in
  -- the client's own map, and that is so exactly when its last call about the room was to join it.
  -- No channel ever holds more messages than its capacity.
  pub hub_calls-members :
      (calls : List (HubCall M)) (capacity : ℕ → ℕ) (c : ℕ) (room : String)
      → let h = hub_calls calls (new_hub capacity) in
        (clients_or_empty (h.rooms room) c ≡ is_member c room calls false)
        × (h.client_rooms c room ≡ is_member c room calls false)
        × (length (h.send c) ≤ capacity c)
  hub_calls-members calls capacity c room =
      let t =
        hub_calls-Tracks calls (λ d r. false) capacity (new_hub capacity)
          (record {
            rooms = λ d r. refl;
            client_rooms = λ d r. refl;
            bound = λ d. omega arith;
            channels = λ d. refl;
          }) in
      (t.rooms c room, t.client_rooms c room, t.bound c)
