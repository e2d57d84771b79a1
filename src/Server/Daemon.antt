-- ===== src/Server/Daemon.antt =====
-- internal/server/server.go: the daemon's map of sessions with their order and the clients that
-- view them. A session's pointer is its name, the key under which the map holds it; a client's is a
-- number. A critical section under the mutex is one step; what a function sends to clients is part
-- of its result.
pub mod Registry
pub mod NextName
pub mod Fitting
use ng_mux.Prelude.{
  ℕ, zero, suc, ◌+◌, ◌-◌, ◌%◌, ◌≡◌, Bool, true, false, not, ◌&&◌, ◌||◌, List, [], ◌∷◌, ◌++◌, Option,
  none, some, if◌then◌else◌, ltb, leb, ◌==◌, length, map, get_elem?, Bytes, bytes_eq, codes,
  is_some, has_name, drop_name, find, put, delete, names, insert, erase, lookup, modify,
}
use ng_mux.Prelude.Int.{ℤ, pos, ltb_ℤ, pos_part}
use ng_mux.Layout.{Float64}
use ng_mux.Protocol.{SessionInfo}
use ng_mux.Server.Pane.{Pane}
use ng_mux.Server.Window.{Window, close_all}
use ng_mux.Server.Session.{Session, new_session, resize}
use ng_mux.Server.Client.{Client}
use ng_mux.Server.Viewers.{
  detach_viewers, viewers, move_viewers, is_viewed, smallest, reset_viewers,
}

pub record Daemon (F Frame : Type 0) : Type 0 where
  pub sessions : List (Bytes × Session F)
  pub order : List Bytes
  pub clients : List (ℕ × Client Frame)
  pub stopped : Bool
  pub init_cols : ℤ
  pub init_rows : ℤ
  pub pane_titles : Bool
  pub default_name : Bytes

abbrev pub default_session_name : Bytes
default_session_name = codes "0"

-- session.shutdown: the emptied session, and the panes that were closed.
abbrev pub close_windows : {F : Type 0} → List (Window F) → List Pane
close_windows [] = []
close_windows (w ∷ ws) = (close_all w).1 ++ close_windows ws

unfoldable pub shutdown : {F : Type 0} → Session F → Session F × List Pane
shutdown s = (record s { windows = [] }, close_windows s.windows)

abbrev pub total_panes : {F : Type 0} → List (Window F) → ℕ
total_panes [] = 0
total_panes (w ∷ ws) = length w.panes + total_panes ws

-- session.info
unfoldable pub info : {F : Type 0} → Session F → Bool → SessionInfo
info s attached = record {
  name = s.name;
  windows = length s.windows;
  panes = total_panes s.windows;
  attached = attached;
}

-- The first critical section of getOrCreateSession, and the session that it then makes.
abbrev pub session_name : Bytes → Bytes
session_name [] = default_session_name
session_name (b ∷ n) = b ∷ n

-- renameSession, of the session that the command was resolved to and a trimmed name.
abbrev pub replace_name : Bytes → Bytes → List Bytes → List Bytes
replace_name old new [] = []
replace_name old new (n ∷ ns) = (if bytes_eq n old then new else n) ∷ replace_name old new ns

pub data RenameError : Type 0 where
  no_name already_exists : RenameError

module _ {F : Type 0} where
  -- The loop of nextSessionName, with fuel.
  unfoldable pub next_name_from : (ℕ → Bytes) → ℕ → ℕ → List (Bytes × Session F) → Option Bytes
  next_name_from itoa zero i m = none
  next_name_from itoa (suc fuel) i m =
      let later = next_name_from itoa fuel (i + 1) m in
      if is_some (find (itoa i) m) then later else some (itoa i)

  abbrev pub no_sessions : List (Bytes × Session F) → Bool
  no_sessions [] = true
  no_sessions (s ∷ ss) = false

module _ {F Frame : Type 0} where
  unfoldable pub make_session : Daemon F Frame → Bytes → Bool → Option (Session F)
  make_session d name starts =
      new_session name d.init_cols d.init_rows d.pane_titles d.default_name starts

  -- Its second one: the session is entered, unless a session of that name is there by now. The
  -- daemon, and the panes that were closed.
  unfoldable pub publish : Daemon F Frame → Bytes → Session F → Daemon F Frame × List Pane
  publish d name s = elim (find name d.sessions) [
    | some existing ↦ (d, (shutdown s).1)
    | none ↦ (record d { sessions = put name s d.sessions; order = d.order ++ name ∷ [] }, [])
  ]

  -- getOrCreateSession with nothing between its critical sections: the daemon, and whether there is
  -- a session of that name now.
  unfoldable pub get_or_create_session : Daemon F Frame → Bytes → Bool → Daemon F Frame × Bool
  get_or_create_session d asked starts =
      let name = session_name asked in
      elim (find name d.sessions) [
        | some s ↦ (d, true)
        | none ↦ elim (make_session d name starts) [
          | none ↦ (d, false)
          | some s ↦ ((publish d name s).0, true)
        ]
      ]

  unfoldable pub has_session : Daemon F Frame → Bytes → Bool
  has_session d name = is_some (find name d.sessions)

  -- nextSessionName, for the strconv.Itoa that is given.
  unfoldable pub next_session_name : (ℕ → Bytes) → Daemon F Frame → Option Bytes
  next_session_name itoa d = next_name_from itoa (length d.sessions + 1) 0 d.sessions

  unfoldable pub forget_session : Daemon F Frame → Bytes → Daemon F Frame × List Pane
  forget_session d name = elim (find name d.sessions) [
    | none ↦ (d, [])
    | some s ↦ (
      record d { sessions = delete name d.sessions; order = drop_name name d.order },
      (shutdown s).1,
    )
  ]

  -- sessionEmptied up to the unlocking of the mutex: the daemon, the clients that are sent a bye and
  -- the panes that were closed.
  unfoldable pub session_emptied : Daemon F Frame → Bytes → Daemon F Frame × List ℕ × List Pane
  session_emptied d name =
      let (d', closed) = forget_session d name in
      if no_sessions d'.sessions
      then (record d' { stopped = true }, [], closed)
      else (record d' { clients = detach_viewers name d'.clients }, viewers name d'.clients, closed)

  unfoldable pub rename_session :
      Daemon F Frame → Session F → Bytes → Daemon F Frame × Option RenameError
  rename_session d s [] = (d, some no_name)
  rename_session d s (b ∷ n) = if has_session d (b ∷ n) then (d, some already_exists) else (
    record d {
      sessions = put (b ∷ n) (record s { name = b ∷ n }) (delete s.name d.sessions);
      order = replace_name s.name (b ∷ n) d.order;
      clients = move_viewers s.name (b ∷ n) d.clients;
    },
    none,
  )

  unfoldable pub list_infos : List Bytes → Daemon F Frame → List SessionInfo
  list_infos [] d = []
  list_infos (n ∷ ns) d = elim (find n d.sessions) [
    | none ↦ list_infos ns d
    | some s ↦ info s (is_viewed n d.clients) ∷ list_infos ns d
  ]

  unfoldable pub list_sessions : Daemon F Frame → List SessionInfo
  list_sessions d = list_infos d.order d

  unfoldable pub add_client : Daemon F Frame → ℕ → Client Frame → Daemon F Frame
  add_client d id c = record d { clients = insert id c d.clients }

  unfoldable pub forget_client : Daemon F Frame → ℕ → Daemon F Frame
  forget_client d id = record d { clients = erase id d.clients }

  -- killSession
  unfoldable pub kill_session : Daemon F Frame → Bytes → Daemon F Frame × List ℕ × List Pane
  kill_session d name = elim (find name d.sessions) [
    | none ↦ (d, [], [])
    | some s ↦
        let (s', closed) = shutdown s in
        let (d', byes, more) =
          session_emptied (record d { sessions = put name s' d.sessions }) name in
        (d', byes, closed ++ more)
  ]

  -- shutdownAll: the sessions and the clients that it closes.
  unfoldable pub shutdown_all :
      Daemon F Frame → Daemon F Frame × List (Bytes × Session F) × List (ℕ × Client Frame)
  shutdown_all d = (record d { sessions = []; order = []; clients = [] }, d.sessions, d.clients)

module _ (f : Float64) where
  open f use {F}

  -- The second loop of fitSessions, for one session.
  unfoldable pub fit_session : Session F → ℕ × ℕ → Session F × Bool
  fit_session s (cols, rows) = if cols == 0 || rows == 0 then (s, false) else resize f s cols rows

module _ (f : Float64) {Frame : Type 0} where
  open f use {F}

  unfoldable pub fit_each :
      List (ℕ × Client Frame) → List (Bytes × Session F) → List (Bytes × Session F)
  fit_each cs [] = []
  fit_each cs ((name, s) ∷ ss) =
      (name, (fit_session f s (smallest name (0, 0) cs)).0) ∷ fit_each cs ss

  -- The viewers of the sessions whose size changed.
  unfoldable pub reset_each :
      List (ℕ × Client Frame)
      → List (Bytes × Session F)
      → List (ℕ × Client Frame)
      → List (ℕ × Client Frame)
  reset_each cs [] out = out
  reset_each cs ((name, s) ∷ ss) out =
      reset_each cs ss
        (if (fit_session f s (smallest name (0, 0) cs)).1 then reset_viewers name out else out)

  unfoldable pub fit_sessions : Daemon F Frame → Daemon F Frame
  fit_sessions d = record d {
    sessions = fit_each d.clients d.sessions;
    clients = reset_each d.clients d.sessions d.clients;
  }
