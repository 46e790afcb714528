-- ===== src/Websocket/Limits.antt =====
-- The limits and the counts of the gateway over every run.
use mathlib.Core.List.{Memᴰ}
use nexus_services.Shared.{
  ℕ, suc, ◌+◌, ◌-◌, ◌*◌, ◌≤◌, ◌<◌, ◌≡◌, refl, sym, ap, ◌∙◌, Bool, true, false, not, ◌||◌, ◌&&◌,
  Option, none, some, List, [], length, All, Result, ok, err, arith, Bool-cases, inl, inr, leb,
  ◌==◌, minute, Time, if◌then◌else◌,
}
use nexus_services.Text.{Text, text_eq, text_eq_iff}
use nexus_services.Websocket.Connection.{Config, try_again_later}
use nexus_services.Websocket.Gateway.{
  ReserveError, unavailable, connection_limit, id_failed, UserState, Client, AttemptWindow, Gateway,
  new_gateway, put, window_of, put_window, current_window, usable_state, admit, reserve, release,
  prepare, subscription, close_clients, fail_user, going_away, shutdown, forget_windows,
}
use nexus_services.Websocket.Counts.{
  count, IsBelow, remove_client-IsBelow, remove_client_lem, close_clients_lem, put_window-All,
  put_window-length, forget_windows_lem,
}

abbrev WithinRate : Config → AttemptWindow → Type 0
WithinRate config w = w.count ≤ config.max_connections_per_user * 6

pub record IsCounted (config : Config) (g : Gateway) : Type 0 where
  pub keyed : IsBelow g.next_key g.clients
  pub counted : (user : Text) → g.per_user user ≡ count user g.clients
  pub limited : length g.clients ≤ config.max_connections
  pub user_limited : (user : Text) → g.per_user user ≤ config.max_connections_per_user
  pub rated : All (λ e. WithinRate config e.1) g.attempts
  pub remembered : length g.attempts ≤ config.max_connections * 4

usable_state_same :
    (user : Text) (r : Option ℕ) (g : Gateway)
    → let h = (usable_state user r g).1 in
      (h.clients ≡ g.clients)
      × (h.per_user ≡ g.per_user)
      × (h.attempts ≡ g.attempts)
      × (h.next_key ≡ g.next_key)
unfolding usable_state
usable_state_same user none g = (refl, refl, refl, refl)
usable_state_same user (some i) g = go (UserState.failed (g.states i))
  where
    go :
        (b : Bool)
        → let h = (if b then usable_state user none g else (i, g)).1 in
          (h.clients ≡ g.clients)
          × (h.per_user ≡ g.per_user)
          × (h.attempts ≡ g.attempts)
          × (h.next_key ≡ g.next_key)
    go true = (refl, refl, refl, refl)
    go false = (refl, refl, refl, refl)

-- A window that has counted an attempt is in the table.
current_window_kept :
    (now : Time) (w : AttemptWindow) → 0 < AttemptWindow.count (current_window now w) → 0 < w.count
unfolding current_window
current_window_kept now w = go (leb minute (now - w.at))
  where
    go :
        (b : Bool)
        → 0 < AttemptWindow.count (if b then record { at = now; count = 0 } else w)
        → 0 < w.count
    go true h = absurd (omega arith)
    go false h = h

window_room :
    (n : ℕ) (user : Text) (now : Time) (ws : List (Text × AttemptWindow))
    → let w = current_window now (window_of user ws) in
      length ws ≤ n
      → (w.count == 0 && leb n (length ws)) ≡ false
      → length (put_window user (record w { count = suc w.count }) ws) ≤ n
window_room n user now ws le room =
    let w = current_window now (window_of user ws) in
    let (short, same) = put_window-length user (record w { count = suc w.count }) ws in
    elim (Bool-cases (w.count == 0)) [
      | inl e ↦ ground arith
      | inr e ↦
          let old = same (current_window_kept now (window_of user ws) (ground arith)) in omega arith
    ]

put-suc :
    (user u : Text) (m : Text → ℕ)
    → put user (suc (m user)) m u ≡ (if text_eq u user then 1 else 0) + m u
put-suc user u m = go (text_eq u user) refl
  where
    go :
        (b : Bool)
        → text_eq u user ≡ b
        → (if b then suc (m user) else m u) ≡ (if b then 1 else 0) + m u
    go true e = let same = ap m ((text_eq_iff u user).0 e) in omega arith
    go false e = omega arith

put_pred :
    (user u : Text) (m : Text → ℕ) (k : ℕ)
    → m u ≡ (if text_eq u user then 1 else 0) + k
    → put user (m user - 1) m u ≡ k
put_pred user u m k = go (text_eq u user) refl
  where
    go :
        (b : Bool)
        → text_eq u user ≡ b
        → m u ≡ (if b then 1 else 0) + k
        → (if b then m user - 1 else m u) ≡ k
    go true e h = let same = ap m ((text_eq_iff u user).0 e) in omega arith
    go false e h = omega arith

put_bound : (user u : Text) (k n : ℕ) (m : Text → ℕ) → k ≤ n → m u ≤ n → put user k m u ≤ n
put_bound user u k n m a b = go (text_eq u user)
  where
    go : (t : Bool) → (if t then k else m u) ≤ n
    go true = a
    go false = b

admit-IsCounted :
    (config : Config) (user : Text) (w : AttemptWindow) (g : Gateway)
    → IsCounted config g
    → length g.clients < config.max_connections
    → g.per_user user < config.max_connections_per_user
    → w.count < config.max_connections_per_user * 6
    → length (put_window user (record w { count = suc w.count }) g.attempts)
      ≤ config.max_connections * 4
    → IsCounted config (admit user w g).1
unfolding admit
admit-IsCounted config user w g h room own rate space =
    let (clients, per_user, attempts, next_key) = usable_state_same user (g.users user) g in
    record {
      keyed = rw (next_key, clients) (omega arith, h.keyed);
      counted = λ u.
          rw (per_user, clients)
            (put-suc user u g.per_user
              ∙ ap (λ k. (if text_eq u user then 1 else 0) + k) (h.counted u));
      limited = rw clients (omega arith);
      user_limited = λ u.
          rw per_user (
            put_bound user u (suc (g.per_user user)) _ g.per_user (omega arith) (h.user_limited u));
      rated = rw attempts (
          put_window-All (WithinRate config) user (record w { count = suc w.count }) g.attempts
            (omega arith) h.rated);
      remembered = rw attempts space;
    }

reserve-IsCounted :
    (config : Config) (named healthy : Bool) (now : Time) (user : Text) (g : Gateway)
    → IsCounted config g
    → IsCounted config (reserve config named healthy now user g).1
unfolding reserve
reserve-IsCounted config named healthy now user g h =
    go named (g.draining || not healthy) (leb config.max_connections (length g.clients)) refl
      (leb config.max_connections_per_user (g.per_user user)) refl
      (leb (config.max_connections_per_user * 6) w.count) refl
      (w.count == 0 && leb (config.max_connections * 4) (length g.attempts)) refl
  where
    w : AttemptWindow
    w = current_window now (window_of user g.attempts)

    go :
        (n d full : Bool)
        → leb config.max_connections (length g.clients) ≡ full
        → (own : Bool) → leb config.max_connections_per_user (g.per_user user) ≡ own
        → (fast : Bool) → leb (config.max_connections_per_user * 6) w.count ≡ fast
        → (many : Bool)
        → (w.count == 0 && leb (config.max_connections * 4) (length g.attempts)) ≡ many
        → let out : Result ReserveError Client × Gateway =
            if not n
            then (err id_failed, g)
            else if d
            then (err unavailable, g)
            else if full || own
            then (err connection_limit, g)
            else if fast
            then (err connection_limit, g)
            else if many
            then (err connection_limit, g)
            else let (client, h) = admit user w g in (ok client, h) in
          IsCounted config out.1
    go false d full e own e₁ fast e₂ many e₃ = h
    go true true full e own e₁ fast e₂ many e₃ = h
    go true false true e own e₁ fast e₂ many e₃ = h
    go true false false e true e₁ fast e₂ many e₃ = h
    go true false false e false e₁ true e₂ many e₃ = h
    go true false false e false e₁ false e₂ true e₃ = h
    go true false false e false e₁ false e₂ false e₃ =
        admit-IsCounted config user w g h (ground arith) (ground arith) (ground arith)
          (window_room (config.max_connections * 4) user now g.attempts h.remembered e₃)

release-IsCounted :
    (config : Config) (c : Client) (g : Gateway)
    → Memᴰ c g.clients
    → IsCounted config g
    → IsCounted config (release c g)
unfolding release
release-IsCounted config c g m h = record {
  keyed = remove_client-IsBelow c.key g.next_key g.clients h.keyed;
  counted = λ u.
      put_pred c.user_id u g.per_user _
        (h.counted u ∙ (remove_client_lem u g.next_key c g.clients h.keyed m).1);
  limited = omega (arith, h.limited, remove_client_lem [] g.next_key c g.clients h.keyed m);
  user_limited = λ u.
      put_bound c.user_id u (g.per_user c.user_id - 1) _ g.per_user
        (omega (arith, h.user_limited c.user_id)) (h.user_limited u);
  rated = h.rated;
  remembered = h.remembered;
}

closed-IsCounted :
    (config : Config) (picked : Client → Bool) (code : ℕ) (g : Gateway)
    → IsCounted config g
    → IsCounted config (record g { clients = close_clients picked code g.clients })
closed-IsCounted config picked code g h =
    let closed = λ (u : Text). close_clients_lem u g.next_key picked code g.clients h.keyed in
    record {
      keyed = (closed []).0;
      counted = λ u. h.counted u ∙ sym (closed u).2;
      limited = rw ((closed []).1) h.limited;
      user_limited = h.user_limited;
      rated = h.rated;
      remembered = h.remembered;
    }

-- The tables of states and users, and the flag, do not matter for the counts.
states-IsCounted :
    (config : Config) (states : ℕ → UserState) (users : Text → Option ℕ) (draining : Bool)
    (g : Gateway)
    → IsCounted config g
    → IsCounted config (record g { states = states; users = users; draining = draining })
states-IsCounted config states users draining g h = record {
  keyed = h.keyed;
  counted = h.counted;
  limited = h.limited;
  user_limited = h.user_limited;
  rated = h.rated;
  remembered = h.remembered;
}

prepare-IsCounted :
    (config : Config) (i : ℕ) (g : Gateway) → IsCounted config g → IsCounted config (prepare i g).1
unfolding prepare
prepare-IsCounted config i g h = go (UserState.started (g.states i) || g.draining)
  where
    states : ℕ → UserState
    states j = if j == i then record (g.states j) { started = true } else g.states j

    go :
        (b : Bool)
        → let out : Bool × Gateway =
            if b then (false, g) else (true, record g { states = states }) in
          IsCounted config out.1
    go true = h
    go false = states-IsCounted config states g.users g.draining g h

-- The steps of the gateway: the blocks under its lock, in any order.
pub data Step (config : Config) : Gateway → Gateway → Type 0 where
  reserves :
      (named healthy : Bool) (now : Time) (user : Text) (g : Gateway)
      → Step config g (reserve config named healthy now user g).1
  releases : (c : Client) (g : Gateway) → Memᴰ c g.clients → Step config g (release c g)
  prepares : (i : ℕ) (g : Gateway) → Step config g (prepare i g).1
  subscribes :
      (i : ℕ) (done healthy : Bool) (g : Gateway) → Step config g (subscription i done healthy g)
  fails : (i : ℕ) (g : Gateway) → Step config g (fail_user i g)
  closes :
      (picked : Client → Bool) (code : ℕ) (g : Gateway)
      → Step config g (record g { clients = close_clients picked code g.clients })
  forgets :
      (now : Time) (g : Gateway)
      → Step config g (record g { attempts = forget_windows now g.attempts })
  shuts : (g : Gateway) → Step config g (shutdown g)

pub data Steps (config : Config) (s : Gateway) : Gateway → Type 0 where
  start : Steps config s s
  after : {g h : Gateway} → Steps config s g → Step config g h → Steps config s h

Step-IsCounted :
    (config : Config) {g h : Gateway} → Step config g h → IsCounted config g → IsCounted config h
unfolding subscription fail_user shutdown
Step-IsCounted config (reserves named healthy now user g) c =
    reserve-IsCounted config named healthy now user g c
Step-IsCounted config (releases k g m) c = release-IsCounted config k g m c
Step-IsCounted config (prepares i g) c = prepare-IsCounted config i g c
Step-IsCounted config (subscribes i done healthy g) c =
    states-IsCounted config _ g.users g.draining g c
Step-IsCounted config (fails i g) c =
    states-IsCounted config _ g.users g.draining
      (record g { clients = close_clients (λ k. k.state == i) try_again_later g.clients })
      (closed-IsCounted config (λ k. k.state == i) try_again_later g c)
Step-IsCounted config (closes picked code g) c = closed-IsCounted config picked code g c
Step-IsCounted config (forgets now g) c =
    let (rated, short) = forget_windows_lem (WithinRate config) now g.attempts c.rated in
    record {
      keyed = c.keyed;
      counted = c.counted;
      limited = c.limited;
      user_limited = c.user_limited;
      rated = rated;
      remembered = omega (arith, c.remembered);
    }
Step-IsCounted config (shuts g) c =
    states-IsCounted config _ g.users true
      (record g { clients = close_clients (λ _. true) going_away g.clients })
      (closed-IsCounted config (λ _. true) going_away g c)

-- On every run of the gateway, whatever the order of its steps: the counter of each user is the
-- number of the user's connections; there are at most the configured number of connections, and of
-- connections of one user; and the attempt windows stay within their count and their number.
pub gateway-IsCounted :
    (config : Config) {g : Gateway} → Steps config new_gateway g → IsCounted config g
gateway-IsCounted config start = record {
  keyed = tt;
  counted = λ u. refl;
  limited = omega arith;
  user_limited = λ u. omega arith;
  rated = tt;
  remembered = omega arith;
}
gateway-IsCounted config (after r s) = Step-IsCounted config s (gateway-IsCounted config r)
