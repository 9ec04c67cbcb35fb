-- ===== src/Shared/Hub.antt =====
-- common/comsocket/manager.go. A client is a pointer, here a number; the map `Rooms` of each client
-- and the hub's map `rooms` with its sets of clients are functions, a key without an entry answering
-- none or false. A channel is the list of what it holds, up to its capacity.
pub mod Laws
use shopble_stellar.Common.{
  ℕ, ◌+◌, String, Bool, true, false, ◌&&◌, Option, none, some, List, [], ◌∷◌, ◌++◌, length, ltb,
  ◌==◌, nat_eq, string_eq, if◌then◌else◌,
}

pub record Hub (M : Type 0) : Type 0 where
  pub rooms : String → Option (ℕ → Bool)
  pub client_rooms : ℕ → String → Bool
  pub send : ℕ → List M
  pub capacity : ℕ → ℕ

-- A map with an entry set, and a set with a member put in or taken out.
abbrev pub set_room :
    String → (ℕ → Bool) → (String → Option (ℕ → Bool)) → String → Option (ℕ → Bool)
set_room room clients rooms r = if room == r then some clients else rooms r

abbrev pub set_client : ℕ → Bool → (ℕ → Bool) → ℕ → Bool
set_client c present clients d = if c == d then present else clients d

abbrev pub set_client_room : ℕ → String → Bool → (ℕ → String → Bool) → ℕ → String → Bool
set_client_room c room present rooms d r = if (c == d) && (room == r) then present else rooms d r

abbrev pub clients_or_empty : Option (ℕ → Bool) → ℕ → Bool
clients_or_empty none c = false
clients_or_empty (some clients) c = clients c

without : ℕ → String → Option (ℕ → Bool) → (String → Option (ℕ → Bool)) → String → Option (ℕ → Bool)
without c room none rooms = rooms
without c room (some clients) rooms = set_room room (set_client c false clients) rooms

module _ {M : Type 0} where
  -- `NewHub`, for clients whose rooms are empty.
  abbrev pub new_hub : (ℕ → ℕ) → Hub M
  new_hub capacity = record {
    rooms = λ room. none;
    client_rooms = λ c room. false;
    send = λ c. [];
    capacity = capacity;
  }

  -- `Join`
  unfoldable pub join : ℕ → String → Hub M → Hub M
  join c room h = record h {
    client_rooms = set_client_room c room true h.client_rooms;
    rooms = set_room room (set_client c true (clients_or_empty (h.rooms room))) h.rooms;
  }

  -- `Leave`
  unfoldable pub leave : ℕ → String → Hub M → Hub M
  unfolding without
  leave c room h = record h {
    rooms = without c room (h.rooms room) h.rooms;
    client_rooms = set_client_room c room false h.client_rooms;
  }

  -- The `select`: a full channel drops the message.
  unfoldable pub sent : M → ℕ → List M → List M
  sent msg capacity queue = if ltb (length queue) capacity then queue ++ (msg ∷ []) else queue

  -- `Broadcast`
  unfoldable pub broadcast : String → M → Hub M → Hub M
  unfolding sent
  broadcast room msg h = record h {
    send = λ c.
        if clients_or_empty (h.rooms room) c then sent msg (h.capacity c) (h.send c) else h.send c;
  }
