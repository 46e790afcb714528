-- ===== src/Websocket/Gateway.antt =====
-- hub.go: the gateway's tables. Every block under the lock of the gateway is one step. A
-- connection and a user's state are reached through pointers: a connection is named by a key, and
-- the states are a store of their own, so that a state which has left the table of users lives on
-- for its connections. A map from users to numbers gives 0 where it has no entry.
use nexus_services.Shared.{
  ℕ, suc, ◌-◌, ◌*◌, Bool, true, false, not, ◌||◌, ◌&&◌, Option, none, some, List, [], ◌∷◌, length,
  Result, ok, err, leb, ◌==◌, Time, minute, if◌then◌else◌,
}
use nexus_services.Text.{Text, text_eq}
use nexus_services.Websocket.Connection.{Config, try_again_later}

pub data ReserveError : Type 0 where
  unavailable connection_limit id_failed : ReserveError

pub record UserState : Type 0 where
  pub id : Text
  pub clients : List ℕ
  pub started : Bool
  pub failed : Bool
  pub subscribed : Bool

-- A connection, with the code of its closing once that is requested.
pub record Client : Type 0 where
  pub key : ℕ
  pub user_id : Text
  pub state : ℕ
  pub code : Option ℕ

pub record AttemptWindow : Type 0 where
  pub at : Time
  pub count : ℕ

pub record Gateway : Type 0 where
  pub next_key : ℕ
  pub next_state : ℕ
  pub states : ℕ → UserState
  pub users : Text → Option ℕ
  pub clients : List Client
  pub per_user : Text → ℕ
  pub attempts : List (Text × AttemptWindow)
  pub draining : Bool

abbrev pub new_state : Text → UserState
new_state id = record { id = id; clients = []; started = false; failed = false; subscribed = false }

-- `New`
abbrev pub new_gateway : Gateway
new_gateway = record {
  next_key = 0;
  next_state = 0;
  states = λ _. new_state [];
  users = λ _. none;
  clients = [];
  per_user = λ _. 0;
  attempts = [];
  draining = false;
}

-- `m[key] = value`
abbrev pub put : {A : Type 0} → Text → A → (Text → A) → Text → A
put key value m k = if text_eq k key then value else m k

-- `g.attempts[user]`, the zero window for a missing key.
unfoldable pub window_of : Text → List (Text × AttemptWindow) → AttemptWindow
window_of user [] = record { at = 0; count = 0 }
window_of user ((id, window) ∷ rest) =
    let found = window_of user rest in if text_eq id user then window else found

unfoldable pub put_window :
    Text → AttemptWindow → List (Text × AttemptWindow) → List (Text × AttemptWindow)
put_window user window [] = (user, window) ∷ []
put_window user window ((id, w) ∷ rest) =
    let others = put_window user window rest in
    if text_eq id user then (id, window) ∷ rest else (id, w) ∷ others

-- The window of the attempt, a new one when the last is a minute old.
unfoldable pub current_window : Time → AttemptWindow → AttemptWindow
current_window now window =
    if leb minute (now - window.at) then record { at = now; count = 0 } else window

abbrev pub update_state : ℕ → (UserState → UserState) → Gateway → Gateway
update_state i change g = record g {
  states = λ j. if j == i then change (g.states j) else g.states j;
}

-- The state of the user, a new one when there is none or it has failed.
create_state : Text → Gateway → ℕ × Gateway
create_state user g = (
  g.next_state,
  record g {
    next_state = suc g.next_state;
    states = λ j. if j == g.next_state then new_state user else g.states j;
    users = put user (some g.next_state) g.users;
  },
)

unfoldable pub usable_state : Text → Option ℕ → Gateway → ℕ × Gateway
unfolding create_state
usable_state user none g = create_state user g
usable_state user (some i) g =
    let created = create_state user g in if UserState.failed (g.states i) then created else (i, g)

-- `reserve` from the count of the attempt on.
unfoldable pub admit : Text → AttemptWindow → Gateway → Client × Gateway
unfolding usable_state
admit user window g =
    let (i, h) = usable_state user (g.users user) g in
    let client : Client = record { key = h.next_key; user_id = user; state = i; code = none } in
    (
      client,
      record (update_state i (λ s. record s { clients = client.key ∷ s.clients }) h) {
        next_key = suc h.next_key;
        clients = client ∷ h.clients;
        per_user = put user (suc (h.per_user user)) h.per_user;
        attempts = put_window user (record window { count = suc window.count }) h.attempts;
      },
    )

-- `reserve`, given the reply of the id generator, the health of the subscriber and the time.
unfoldable pub reserve :
    Config → Bool → Bool → Time → Text → Gateway → Result ReserveError Client × Gateway
unfolding admit current_window
reserve config named healthy now user g =
    if not named
    then (err id_failed, g)
    else if g.draining || not healthy
    then (err unavailable, g)
    else if leb config.max_connections (length g.clients)
        || leb config.max_connections_per_user (g.per_user user)
    then (err connection_limit, g)
    else let window = current_window now (window_of user g.attempts) in
      if leb (config.max_connections_per_user * 6) window.count
      then (err connection_limit, g)
      else if window.count == 0 && leb (config.max_connections * 4) (length g.attempts)
      then (err connection_limit, g)
      else let (client, h) = admit user window g in (ok client, h)

unfoldable pub remove_client : ℕ → List Client → List Client
remove_client key [] = []
remove_client key (c ∷ cs) =
    let rest = remove_client key cs in if c.key == key then cs else c ∷ rest

remove_key : ℕ → List ℕ → List ℕ
remove_key key [] = []
remove_key key (k ∷ ks) = let rest = remove_key key ks in if k == key then ks else k ∷ rest

-- `delete(g.users, id)`, if the entry is this state and the state has no client left.
drop_user : Client → UserState → (Text → Option ℕ) → Text → Option ℕ
drop_user c s users = elim s.clients [
  | [] ↦ elim (users c.user_id) [
    | none ↦ users
    | some i ↦ if i == c.state then put c.user_id none users else users
  ]
  | _ ∷ _ ↦ users
]

-- `release`, which `releaseOnce` runs once for a connection.
unfoldable pub release : Client → Gateway → Gateway
unfolding drop_user remove_key
release c g =
    let h = update_state c.state (λ s. record s { clients = remove_key c.key s.clients }) g in
    record h {
      clients = remove_client c.key g.clients;
      per_user = put c.user_id (g.per_user c.user_id - 1) g.per_user;
      users = drop_user c (h.states c.state) g.users;
    }

-- `prepare` up to the subscription; true when it is to be started.
unfoldable pub prepare : ℕ → Gateway → Bool × Gateway
prepare i g =
    if UserState.started (g.states i) || g.draining
    then (false, g)
    else (true, update_state i (λ s. record s { started = true }) g)

abbrev pub is_empty_list : List ℕ → Bool
is_empty_list [] = true
is_empty_list (_ ∷ _) = false

-- `prepare` after the subscription: an abandoned one counts as failed.
unfoldable pub subscription : ℕ → Bool → Bool → Gateway → Gateway
subscription i subscribed healthy g =
    let s = g.states i in
    let abandoned = is_empty_list s.clients || g.draining || s.failed || not healthy in
    update_state i
      (λ t.
        if subscribed && not abandoned
        then record t { subscribed = true }
        else record t { failed = true })
      g

-- `requestClose` for the connections that are picked.
unfoldable pub close_client : ℕ → Client → Client
close_client code c = elim c.code [ none ↦ record c { code = some code } | some _ ↦ c ]

unfoldable pub close_clients : (Client → Bool) → ℕ → List Client → List Client
close_clients picked code [] = []
close_clients picked code (c ∷ cs) =
    (if picked c then close_client code c else c) ∷ close_clients picked code cs

unfoldable pub fail_user : ℕ → Gateway → Gateway
fail_user i g = record (update_state i (λ s. record s { failed = true }) g) {
  clients = close_clients (λ c. c.state == i) try_again_later g.clients;
}

-- `coder.StatusGoingAway`
abbrev pub going_away : ℕ
going_away = 1001

abbrev pub is_current : (Text → Option ℕ) → ℕ → UserState → Bool
is_current users i s = elim (users s.id) [ none ↦ false | some j ↦ j == i ]

-- `Shutdown` under the lock, and the closing of every connection.
unfoldable pub shutdown : Gateway → Gateway
shutdown g = record g {
  draining = true;
  states =
      λ i. let s = g.states i in if is_current g.users i s then record s { failed = true } else s;
  clients = close_clients (λ _. true) going_away g.clients;
}

-- The monitor's removal of windows that are a minute old.
unfoldable pub forget_windows : Time → List (Text × AttemptWindow) → List (Text × AttemptWindow)
forget_windows now [] = []
forget_windows now ((id, window) ∷ rest) =
    let kept = forget_windows now rest in
    if leb minute (now - window.at) then kept else (id, window) ∷ kept
