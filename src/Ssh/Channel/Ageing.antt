-- ===== src/Ssh/Channel/Ageing.antt =====
-- How a channel of the registry in crates/shbox/src/ssh/channel.rs changes until it is opened again.
use shbox.Prelude.{
  ℕ, Bool, true, false, ◌&&◌, ◌||◌, ◌==◌, leb, ◌≡◌, ◌≤◌, ◌+◌, ◌^◌, refl, ◌∙◌, subst, Option, none,
  some, List, [], ◌∷◌, if◌then◌else◌, arith, All, Bool-cases, inl, inr,
}
use shbox.Prelude.Table.{get, get-set, get-erase}
use shbox.Ssh.Channel.{
  PtyRequest, ChannelState, Registry, opened, try_open, updated, with_state, start_state, start,
  nonzero_or, resized, resize_pty, update_window, has_pty, request_state, pty_request, Op, opens,
  removes, starts, clears, resizes, requests, perform, run,
}

-- What later states of a channel keep: it stays started, its revision does not fall, and its PTY
-- stays the same as long as the revision does.
pub record Newer (old new : ChannelState) : Type 0 where
  pub stays_started : old.started ≡ true → new.started ≡ true
  pub revision_le : old.window_revision ≤ new.window_revision
  pub same_pty :
      (pty : PtyRequest)
      → old.pty ≡ some pty
      → (later : PtyRequest) × (new.pty ≡ some later)
        × (old.window_revision ≡ new.window_revision → pty ≡ later)

Newer-refl : (state : ChannelState) → Newer state state
Newer-refl state = record {
  stays_started = λ h. h;
  revision_le = omega arith;
  same_pty = λ pty e. (pty, e, λ same. refl);
}

Newer-trans : (a b c : ChannelState) → Newer a b → Newer b c → Newer a c
Newer-trans a b c h k = record {
  stays_started = λ s. k.stays_started (h.stays_started s);
  revision_le = omega (arith, h.revision_le, k.revision_le);
  same_pty = λ pty e.
      let (middle, is_middle, first) = h.same_pty pty e in
      let (last, is_last, second) = k.same_pty middle is_middle in
      (
        last,
        is_last,
        λ same.
            first (omega (arith, same, h.revision_le, k.revision_le))
            ∙ second (omega (arith, same, h.revision_le, k.revision_le)),
      );
}

-- A property of a conditional, by its branches.
pub by_branch {ℓ κ} :
    {A : Type ℓ} (P : A → Type κ) (b : Bool) {x y : A}
    → (b ≡ true → P x)
    → (b ≡ false → P y)
    → P (if b then x else y)
by_branch P true f g = f refl
by_branch P false f g = g refl

start_state-Newer : (state : ChannelState) → Newer state (start_state state).1
start_state-Newer state =
    by_branch (λ (r : Option ℕ × ChannelState). Newer state r.1) state.started
      (λ h. Newer-refl state)
      λ h. record {
        stays_started = λ k. refl;
        revision_le = omega arith;
        same_pty = λ pty k. (pty, k, λ same. refl);
      }

resized-Newer :
    (rows cols : ℕ) (state : ChannelState) (pty : PtyRequest)
    → state.pty ≡ some pty
    → Newer state (resized rows cols state pty).1
resized-Newer rows cols state pty e =
    by_branch P (rows == 0 && cols == 0) (λ h. Newer-refl state)
      λ h.
        by_branch P (leb (2 ^ 64) (state.window_revision + 1)) (λ k. Newer-refl state)
          λ k. record {
            stays_started = λ g. g;
            revision_le = omega arith;
            same_pty = λ old g. (
              record pty { rows = nonzero_or pty.rows rows; cols = nonzero_or pty.cols cols },
              refl,
              λ same. absurd (omega (arith, same)),
            );
          }
  where
    P : Option ℕ × ChannelState → Type 0
    P r = Newer state r.1

resize_pty-Newer :
    (rows cols : ℕ) (state : ChannelState) (o : Option PtyRequest)
    → state.pty ≡ o
    → Newer state (resize_pty rows cols state o).1
resize_pty-Newer rows cols state none e = Newer-refl state
resize_pty-Newer rows cols state (some pty) e = resized-Newer rows cols state pty e

no_pty :
    (state : ChannelState) (o : Option PtyRequest) (old : PtyRequest)
    → o ≡ some old
    → state.pty ≡ o
    → has_pty state ≡ true
no_pty state none old h e = cc
no_pty state (some pty) old h e = rw e refl

request_state-Newer :
    (pty : PtyRequest) (state : ChannelState) → Newer state (request_state pty state).1
request_state-Newer pty state =
    by_branch (λ (r : Bool × ChannelState). Newer state r.1) (state.started || has_pty state)
      (λ h. Newer-refl state)
      λ h. record {
        stays_started = λ g. g;
        revision_le = omega arith;
        same_pty = λ old g.
            let there = no_pty state state.pty old g refl in absurd (ground (arith, h, there));
      }

-- What is found was there before, and is newer than it was.
abbrev pub Aged : Registry → Registry → ℕ → Type 0
Aged old new id =
    (later : ChannelState)
    → get id new ≡ some later
    → (before : ChannelState) × (get id old ≡ some before) × Newer before later

Aged-updated :
    {R : Type 0} (j : ℕ) (channels : Registry) (body : ChannelState → R × ChannelState)
    (o : Option ChannelState)
    → get j channels ≡ o
    → ((state : ChannelState) → Newer state (body state).1)
    → (id : ℕ) → Aged channels (updated j channels body o).1 id
Aged-updated j channels body none e newer id later h = (later, h, Newer-refl later)
Aged-updated j channels body (some state) e newer id later h = elim (Bool-cases (j == id)) [
  | inl same ↦
      let is_later : (body state).1 ≡ later =
        ground (arith, get-set j id (body state).1 channels) in
      (state, ground (arith, e), subst (Newer state) is_later (newer state))
  | inr differs ↦ (later, ground (arith, h, get-set j id (body state).1 channels), Newer-refl later)
]

Aged-with_state :
    {R : Type 0} (j : ℕ) (body : ChannelState → R × ChannelState) (channels : Registry)
    → ((state : ChannelState) → Newer state (body state).1)
    → (id : ℕ) → Aged channels (with_state j body channels).1 id
unfolding with_state
Aged-with_state j body channels newer id =
    Aged-updated j channels body (get j channels) refl newer id

-- Whether an operation opens the channel.
abbrev pub is_opening : ℕ → Op → Bool
is_opening id (opens j pair) = j == id
is_opening id _ = false

Aged-open :
    (j cap pair : ℕ) (channels : Registry) (id : ℕ)
    → (j == id) ≡ false
    → Aged channels (try_open j cap pair channels).1 id
unfolding try_open
Aged-open j cap pair channels id h later e =
    (later, ground (arith, e, h, get-set j id (opened pair) channels), Newer-refl later)

Aged-perform :
    (cap : ℕ) (op : Op) (channels : Registry) (id : ℕ)
    → is_opening id op ≡ false
    → Aged channels (perform cap op channels) id
unfolding perform start update_window pty_request
Aged-perform cap (opens j pair) channels id h = Aged-open j cap pair channels id h
Aged-perform cap (removes j) channels id h =
    λ later e. (later, ground (arith, e, get-erase j id channels), Newer-refl later)
Aged-perform cap (starts j) channels id h =
    Aged-with_state j start_state channels start_state-Newer id
Aged-perform cap clears channels id h = λ later e. unfold get in cc
Aged-perform cap (resizes j rows cols) channels id h =
    Aged-with_state j (λ state. resize_pty rows cols state state.pty) channels
      (λ state. resize_pty-Newer rows cols state state.pty refl) id
Aged-perform cap (requests j pty) channels id h =
    Aged-with_state j (request_state pty) channels (request_state-Newer pty) id

-- The operations do not open the channel.
abbrev pub KeepClosed : ℕ → List Op → Type 0
KeepClosed id ops = All (λ op. is_opening id op ≡ false) ops

pub Aged-run :
    (cap : ℕ) (ops : List Op) (channels : Registry) (id : ℕ)
    → KeepClosed id ops
    → Aged channels (run cap ops channels) id
unfolding run
Aged-run cap [] channels id h = λ later e. (later, e, Newer-refl later)
Aged-run cap (op ∷ ops) channels id h = λ later e.
    let (middle, at_middle, second) = Aged-run cap ops (perform cap op channels) id h.1 later e in
    let (before, at_before, first) = Aged-perform cap op channels id h.0 middle at_middle in
    (before, at_before, Newer-trans before middle later first second)
