-- ===== src/Ssh/Channel/Once.antt =====
-- A channel of crates/shbox/src/ssh/channel.rs runs one operation, and a window that has kept its
-- revision has kept its size.
use shbox.Prelude.{ℕ, true, ◌≡◌, ◌≤◌, refl, sym, ◌∙◌, subst, Option, none, some, List, arith}
use shbox.Prelude.Table.{get, get-set}
use shbox.Ssh.Channel.{
  PtyRequest, ChannelState, Registry, updated, with_state, join, start_state, start, with_revision,
  snapshot_in, pty_snapshot, Op, run,
}
use shbox.Ssh.Channel.Ageing.{Newer, Aged, Aged-run, KeepClosed, by_branch}

abbrev Spent : ℕ → Registry → Type 0
Spent id channels = (state : ChannelState) → get id channels ≡ some state → state.started ≡ true

start_state-started : (state : ChannelState) → (start_state state).1.started ≡ true
start_state-started state =
    by_branch (λ (r : Option ℕ × ChannelState). r.1.started ≡ true) state.started (λ h. h) λ h. refl

start_state-spent : (state : ChannelState) → state.started ≡ true → (start_state state).0 ≡ none
start_state-spent state h =
    by_branch (λ (r : Option ℕ × ChannelState). r.0 ≡ none) state.started (λ k. refl) λ k. cc

start-Spent : (id : ℕ) (channels : Registry) → Spent id (start id channels).1
unfolding start with_state
start-Spent id channels = at_state (get id channels) refl
  where
    at_state :
        (o : Option ChannelState)
        → get id channels ≡ o
        → Spent id (updated id channels start_state o).1
    at_state none e state h = cc
    at_state (some before) e state h =
        let is_state : (start_state before).1 ≡ state =
          ground (arith, h, get-set id id (start_state before).1 channels) in
        subst (λ (s : ChannelState). s.started ≡ true) is_state (start_state-started before)

Spent-start : (id : ℕ) (channels : Registry) → Spent id channels → (start id channels).0 ≡ none
unfolding start with_state
Spent-start id channels spent = at_state (get id channels) refl
  where
    at_state :
        (o : Option ChannelState)
        → get id channels ≡ o
        → join (updated id channels start_state o).0 ≡ none
    at_state none e = refl
    at_state (some state) e = start_state-spent state (spent state e)

Spent-Aged : (id : ℕ) (old new : Registry) → Spent id old → Aged old new id → Spent id new
Spent-Aged id old new spent aged later e =
    let (before, at_before, newer) = aged later e in newer.stays_started (spent before at_before)

-- After a start, whatever it answers, no later start of the channel gives a receiver before the
-- channel is opened again.
pub start_once :
    (cap id : ℕ) (ops : List Op) (channels : Registry)
    → KeepClosed id ops
    → (start id (run cap ops (start id channels).1)).0 ≡ none
start_once cap id ops channels closed = Spent-start id (run cap ops (start id channels).1) (
    Spent-Aged id (start id channels).1 (run cap ops (start id channels).1)
      (start-Spent id channels) (Aged-run cap ops (start id channels).1 id closed))

-- A snapshot is of a channel that is there.
snapshot_found :
    (o : Option ChannelState) (pty : PtyRequest) (revision : ℕ)
    → snapshot_in o ≡ some (pty, revision)
    → (state : ChannelState) × (o ≡ some state)
      × (state.pty ≡ some pty)
      × (state.window_revision ≡ revision)
snapshot_found none pty revision e = cc
snapshot_found (some state) pty revision e =
    let (is_pty, is_revision) = of_pty state.pty e in (state, refl, is_pty, is_revision)
  where
    of_pty :
        (p : Option PtyRequest)
        → with_revision state.window_revision p ≡ some (pty, revision)
        → (p ≡ some pty) × (state.window_revision ≡ revision)
    of_pty none h = cc
    of_pty (some q) h = (ground arith, ground arith)

-- Of two snapshots of a channel that is not opened between them, the later has no lower revision, and
-- where the revisions are equal, so are the PTYs.
pub pty_snapshot-Newer :
    (cap id : ℕ) (ops : List Op) (channels : Registry) (pty later : PtyRequest)
    (revision later_revision : ℕ)
    → KeepClosed id ops
    → pty_snapshot id channels ≡ some (pty, revision)
    → pty_snapshot id (run cap ops channels) ≡ some (later, later_revision)
    → (revision ≤ later_revision) × (revision ≡ later_revision → pty ≡ later)
unfolding pty_snapshot
pty_snapshot-Newer cap id ops channels pty later revision later_revision closed e f =
    let (state, at_state, is_pty, is_revision) = snapshot_found (get id channels) pty revision e in
    let (new, at_new, is_later, is_new) =
      snapshot_found (get id (run cap ops channels)) later later_revision f in
    let (before, at_before, newer) = Aged-run cap ops channels id closed new at_new in
    let same : before ≡ state = ground (arith, at_before, at_state) in
    finish state new (subst (λ (s : ChannelState). Newer s new) same newer) is_pty is_revision
      is_later is_new
  where
    finish :
        (state new : ChannelState)
        → Newer state new
        → state.pty ≡ some pty
        → state.window_revision ≡ revision
        → new.pty ≡ some later
        → new.window_revision ≡ later_revision
        → (revision ≤ later_revision) × (revision ≡ later_revision → pty ≡ later)
    finish state new newer is_pty is_revision is_later is_new = (
      omega (arith, newer.revision_le, is_revision, is_new),
      λ same.
          let (q, is_q, kept) = newer.same_pty pty is_pty in
          kept (is_revision ∙ same ∙ sym is_new) ∙ ground (arith, is_q, is_later),
    )
