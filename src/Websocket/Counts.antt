-- ===== src/Websocket/Counts.antt =====
-- What the gateway's operations on its lists do to keys and counts.
use mathlib.Core.List.{Memᴰ}
use nexus_services.Shared.{
  ℕ, suc, ◌+◌, ◌-◌, ◌≤◌, ◌<◌, ◌≡◌, refl, sym, ap, subst, Bool, true, false, Option, none, some,
  List, [], ◌∷◌, length, All, arith, ==_iff, leb, ◌==◌, minute, Time, if◌then◌else◌,
}
use nexus_services.Text.{Text, text_eq}
use nexus_services.Websocket.Gateway.{
  Client, AttemptWindow, window_of, put_window, remove_client, close_client, close_clients,
  forget_windows,
}

-- The connections of a user.
abbrev pub count : Text → List Client → ℕ
count user [] = 0
count user (c ∷ cs) = (if text_eq user c.user_id then 1 else 0) + count user cs

-- Keys in falling order, all below `n`.
abbrev pub IsBelow : ℕ → List Client → Type 0
IsBelow n [] = Unit
IsBelow n (c ∷ cs) = (c.key < n) × IsBelow c.key cs

pub IsBelow-mono : (m n : ℕ) (cs : List Client) → m ≤ n → IsBelow m cs → IsBelow n cs
IsBelow-mono m n [] le h = tt
IsBelow-mono m n (c ∷ cs) le h = (omega arith, h.1)

pub member-below : (n : ℕ) (c : Client) (cs : List Client) → IsBelow n cs → Memᴰ c cs → c.key < n
member-below n c [] h m = elim m [ ]
member-below n c (x ∷ cs) h (Memᴰ.head e) = subst (λ z. Client.key z < n) (sym e) h.0
member-below n c (x ∷ cs) h (Memᴰ.tail m) = let lt = member-below x.key c cs h.1 m in omega arith

pub remove_client-IsBelow :
    (key n : ℕ) (cs : List Client) → IsBelow n cs → IsBelow n (remove_client key cs)
unfolding remove_client
remove_client-IsBelow key n [] h = tt
remove_client-IsBelow key n (x ∷ cs) h = go (x.key == key) (remove_client-IsBelow key x.key cs h.1)
  where
    go :
        (b : Bool)
        → IsBelow x.key (remove_client key cs)
        → IsBelow n (if b then cs else x ∷ remove_client key cs)
    go true r = IsBelow-mono x.key n cs (omega arith) h.1
    go false r = (h.0, r)

-- A removal takes one connection, of its own user.
pub remove_client_lem :
    (user : Text) (n : ℕ) (c : Client) (cs : List Client)
    → IsBelow n cs
    → Memᴰ c cs
    → (length cs ≡ suc (length (remove_client c.key cs)))
      × (count user cs
          ≡ (if text_eq user c.user_id then 1 else 0) + count user (remove_client c.key cs))
unfolding remove_client
remove_client_lem user n c [] h m = elim m [ ]
remove_client_lem user n c (x ∷ cs) h (Memᴰ.head e) =
    rw (e, (==_iff x.key x.key).1 refl) (refl, refl)
remove_client_lem user n c (x ∷ cs) h (Memᴰ.tail m) =
    let lt = member-below x.key c cs h.1 m in
    let (one, same) = remove_client_lem user x.key c cs h.1 m in
    let other : (x.key == c.key) ≡ false = ground arith in rw other (omega arith, omega arith)

closed_same :
    (code : ℕ) (b : Bool) (c : Client)
    → let closed = if b then close_client code c else c in
      (closed.key ≡ c.key) × (closed.user_id ≡ c.user_id)
unfolding close_client
closed_same code false c = (refl, refl)
closed_same code true c = go c.code
  where
    go :
        (k : Option ℕ)
        → let closed = close_client code (record c { code = k }) in
          (closed.key ≡ c.key) × (closed.user_id ≡ c.user_id)
    go none = (refl, refl)
    go (some _) = (refl, refl)

pub close_clients_lem :
    (user : Text) (n : ℕ) (picked : Client → Bool) (code : ℕ) (cs : List Client)
    → IsBelow n cs
    → IsBelow n (close_clients picked code cs)
      × (length (close_clients picked code cs) ≡ length cs)
      × (count user (close_clients picked code cs) ≡ count user cs)
unfolding close_clients
close_clients_lem user n picked code [] h = (tt, refl, refl)
close_clients_lem user n picked code (c ∷ cs) h =
    let (key, owner) = closed_same code (picked c) c in
    let (below, long, many) = close_clients_lem user c.key picked code cs h.1 in
    (
      (
        subst (λ k. k < n) (sym key) h.0,
        subst (λ k. IsBelow k (close_clients picked code cs)) (sym key) below,
      ),
      ap suc long,
      rw (owner, many) refl,
    )

-- What `put_window` does to the limits of the windows.
pub put_window-All :
    (P : AttemptWindow → Type 0) (user : Text) (w : AttemptWindow)
    (ws : List (Text × AttemptWindow))
    → P w
    → All (λ e. P e.1) ws
    → All (λ e. P e.1) (put_window user w ws)
unfolding put_window
put_window-All P user w [] p a = (p, tt)
put_window-All P user w ((id, v) ∷ ws) p a = go (text_eq id user) (put_window-All P user w ws p a.1)
  where
    go :
        (b : Bool)
        → All (λ e. P e.1) (put_window user w ws)
        → All (λ e. P e.1) (if b then (id, w) ∷ ws else (id, v) ∷ put_window user w ws)
    go true r = (p, a.1)
    go false r = (a.0, r)

pub put_window-length :
    (user : Text) (w : AttemptWindow) (ws : List (Text × AttemptWindow))
    → (length (put_window user w ws) ≤ suc (length ws))
      × (0 < AttemptWindow.count (window_of user ws) → length (put_window user w ws) ≡ length ws)
unfolding put_window window_of
put_window-length user w [] = (omega arith, λ h. absurd (omega arith))
put_window-length user w ((id, v) ∷ ws) =
    let (short, same) = put_window-length user w ws in go (text_eq id user) short same
  where
    go :
        (b : Bool)
        → length (put_window user w ws) ≤ suc (length ws)
        → (0 < AttemptWindow.count (window_of user ws) → length (put_window user w ws) ≡ length ws)
        → let ps : List (Text × AttemptWindow) =
            if b then (id, w) ∷ ws else (id, v) ∷ put_window user w ws in
          (length ps ≤ suc (suc (length ws)))
          × (0 < AttemptWindow.count (if b then v else window_of user ws)
              → length ps ≡ suc (length ws))
    go true short same = (omega arith, λ h. refl)
    go false short same = (omega arith, λ h. ap suc (same h))

pub forget_windows_lem :
    (P : AttemptWindow → Type 0) (now : Time) (ws : List (Text × AttemptWindow))
    → All (λ e. P e.1) ws
    → All (λ e. P e.1) (forget_windows now ws) × (length (forget_windows now ws) ≤ length ws)
unfolding forget_windows
forget_windows_lem P now [] a = (tt, omega arith)
forget_windows_lem P now ((id, v) ∷ ws) a =
    let (all, short) = forget_windows_lem P now ws a.1 in go (leb minute (now - v.at)) all short
  where
    go :
        (b : Bool)
        → All (λ e. P e.1) (forget_windows now ws)
        → length (forget_windows now ws) ≤ length ws
        → let ps : List (Text × AttemptWindow) =
            if b then forget_windows now ws else (id, v) ∷ forget_windows now ws in
          All (λ e. P e.1) ps × (length ps ≤ suc (length ws))
    go true all short = (all, omega arith)
    go false all short = ((a.0, all), omega arith)
