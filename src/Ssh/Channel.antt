-- ===== src/Ssh/Channel.antt =====
-- `ChannelRegistry` of crates/shbox/src/ssh/channel.rs, and the callbacks of ssh/mod.rs that change it.
-- The lock makes each operation one step. The two ends of a mailbox are the number of its pair.
pub mod Cap
pub mod Ageing
pub mod Once
pub mod Window
use shbox.Prelude.{
  ℕ, suc, Bool, true, false, not, ◌&&◌, ◌||◌, ◌==◌, leb, ltb, ◌+◌, ◌^◌, Option, none, some, List,
  [], ◌∷◌, length, if◌then◌else◌,
}
use shbox.Prelude.Bytes.{Bytes}
use shbox.Prelude.Table.{get, set, erase}

-- `host::PtyRequest`
pub record PtyRequest : Type 0 where
  pub term : Bytes
  pub rows : ℕ
  pub cols : ℕ
  pub modes : List (ℕ × ℕ)

pub record ChannelState : Type 0 where
  pub pty : Option PtyRequest
  pub window_revision : ℕ
  pub started : Bool
  pub mailbox : Option ℕ
  pub mailbox_rx : Option ℕ

abbrev pub Registry : Type 0
Registry = List (ℕ × ChannelState)

-- A channel of `try_open`, with its mailbox.
abbrev pub opened : ℕ → ChannelState
opened pair = record {
  pty = none;
  window_revision = 0;
  started = false;
  mailbox = some pair;
  mailbox_rx = some pair;
}

unfoldable pub try_open : ℕ → ℕ → ℕ → Registry → Bool × Registry
try_open id cap pair channels =
    if leb cap (length channels) then (false, channels) else (true, set id (opened pair) channels)

abbrev pub updated :
    {R : Type 0}
    → ℕ
    → Registry
    → (ChannelState → R × ChannelState)
    → Option ChannelState
    → Option R × Registry
updated id channels body none = (none, channels)
updated id channels body (some state) = let r = body state in (some r.0, set id r.1 channels)

unfoldable pub with_state :
    {R : Type 0} → ℕ → (ChannelState → R × ChannelState) → Registry → Option R × Registry
with_state id body channels = updated id channels body (get id channels)

-- `unwrap_or(None)`
abbrev pub join : {R : Type 0} → Option (Option R) → Option R
join none = none
join (some o) = o

abbrev pub start_state : ChannelState → Option ℕ × ChannelState
start_state state =
    if state.started
    then (none, state)
    else (state.mailbox_rx, record state { started = true; mailbox_rx = none })

-- Whether a receiver is given, and which.
unfoldable pub start : ℕ → Registry → Option ℕ × Registry
start id channels = let r = with_state id start_state channels in (join r.0, r.1)

abbrev pub with_revision : ℕ → Option PtyRequest → Option (PtyRequest × ℕ)
with_revision revision none = none
with_revision revision (some pty) = some (pty, revision)

abbrev pub snapshot_of : ChannelState → Option (PtyRequest × ℕ)
snapshot_of state = with_revision state.window_revision state.pty

abbrev pub snapshot_in : Option ChannelState → Option (PtyRequest × ℕ)
snapshot_in none = none
snapshot_in (some state) = snapshot_of state

unfoldable pub pty_snapshot : ℕ → Registry → Option (PtyRequest × ℕ)
pty_snapshot id channels = snapshot_in (get id channels)

abbrev pub nonzero_or : ℕ → ℕ → ℕ
nonzero_or old new = if new == 0 then old else new

-- The body of `update_window` where there is a PTY; `checked_add` is of `u64`.
abbrev pub resized : ℕ → ℕ → ChannelState → PtyRequest → Option ℕ × ChannelState
resized rows cols state pty =
    if rows == 0 && cols == 0
    then (some state.window_revision, state)
    else if leb (2 ^ 64) (state.window_revision + 1)
    then (none, state)
    else (
      some (state.window_revision + 1),
      record state {
        window_revision = state.window_revision + 1;
        pty =
            some (record pty { rows = nonzero_or pty.rows rows; cols = nonzero_or pty.cols cols });
      },
    )

abbrev pub resize_pty : ℕ → ℕ → ChannelState → Option PtyRequest → Option ℕ × ChannelState
resize_pty rows cols state none = (none, state)
resize_pty rows cols state (some pty) = resized rows cols state pty

unfoldable pub update_window : ℕ → ℕ → ℕ → Registry → Option ℕ × Registry
update_window id rows cols channels =
    let r = with_state id (λ state. resize_pty rows cols state state.pty) channels in
    (join r.0, r.1)

abbrev pub has_pty : ChannelState → Bool
has_pty state = elim state.pty [ none ↦ false | some pty ↦ true ]

abbrev pub request_state : PtyRequest → ChannelState → Bool × ChannelState
request_state pty state =
    if state.started || has_pty state
    then (false, state)
    else (true, record state { pty = some pty })

-- The change of `pty_request` once the terminal's name is accepted.
unfoldable pub pty_request : ℕ → PtyRequest → Registry → Option Bool × Registry
pty_request id pty channels = with_state id (request_state pty) channels

-- The other operations, and which channel they open.
pub data Op : Type 0 where
  opens : (id pair : ℕ) → Op
  removes starts : (id : ℕ) → Op
  clears : Op
  resizes : (id rows cols : ℕ) → Op
  requests : (id : ℕ) → PtyRequest → Op

unfoldable pub perform : ℕ → Op → Registry → Registry
perform cap (opens id pair) channels = (try_open id cap pair channels).1
perform cap (removes id) channels = erase id channels
perform cap (starts id) channels = (start id channels).1
perform cap clears channels = []
perform cap (resizes id rows cols) channels = (update_window id rows cols channels).1
perform cap (requests id pty) channels = (pty_request id pty channels).1

-- Operations in their order.
unfoldable pub run : ℕ → List Op → Registry → Registry
run cap [] channels = channels
run cap (op ∷ ops) channels = run cap ops (perform cap op channels)
