-- ===== src/Ssh/Channel/Window.antt =====
-- `synchronize_window` of crates/shbox/src/ssh/channel.rs. The operations that other tasks make on the
-- registry between two looks of the loop are given, a list for each look. `resize` may keep a state.
use shbox.Prelude.{
  ℕ, Bool, true, ◌==◌, ◌≡◌, refl, sym, ap₂, ◌∙◌, Option, none, some, List, [], ◌∷◌, if◌then◌else◌,
  arith, All, ◌⊎◌, inl, inr,
}
use shbox.Ssh.Channel.{PtyRequest, Registry, pty_snapshot, Op, run}
use shbox.Ssh.Channel.Ageing.{KeepClosed, by_branch}
use shbox.Ssh.Channel.Once.{pty_snapshot-Newer}

-- The answer, the PTY whose size was applied last, and the registry then.
pub record Synced : Type 0 where
  pub answer : Option ℕ
  pub applied : Option PtyRequest
  pub channels : Registry

-- How a look at the registry ends the loop, or goes on with the rest of it.
abbrev pub look :
    PtyRequest
    → ℕ
    → Registry
    → (PtyRequest → ℕ → Option Synced)
    → Option (PtyRequest × ℕ)
    → Option Synced
look pty revision channels rest none =
    some (record { answer = none; applied = some pty; channels = channels })
look pty revision channels rest (some (latest, latest_revision)) =
    let later = rest latest latest_revision in
    if latest_revision == revision
    then some (record { answer = some revision; applied = some pty; channels = channels })
    else later

module _ {S : Type 0} (resize : S → ℕ → ℕ → Bool × S) (cap id : ℕ) where
  -- The loop, which has not ended where the lists do.
  unfoldable pub synchronize_from : List (List Op) → S → PtyRequest → ℕ → Registry → Option Synced
  synchronize_from [] s pty revision channels = none
  synchronize_from (ops ∷ rounds) s pty revision channels =
      let (accepted, left) = resize s pty.rows pty.cols in
      let now = run cap ops channels in
      let rest =
        look pty revision now
          (λ latest latest_revision. synchronize_from rounds left latest latest_revision now)
          (pty_snapshot id now) in
      if accepted
      then rest
      else some (record { answer = none; applied = none; channels = channels })

  abbrev pub synchronize : List (List Op) → S → Registry → Option (PtyRequest × ℕ) → Option Synced
  synchronize rounds s channels none =
      some (record { answer = some 0; applied = none; channels = channels })
  synchronize rounds s channels (some (pty, revision)) =
      synchronize_from rounds s pty revision channels

  unfoldable pub synchronize_window : List (List Op) → S → Registry → Option Synced
  synchronize_window rounds s channels = synchronize rounds s channels (pty_snapshot id channels)

  -- A PTY whose size was applied, and an answer, are those of the channel.
  abbrev IsCurrent : Synced → Type 0
  IsCurrent s =
      (pty : PtyRequest) (revision : ℕ)
      → s.applied ≡ some pty
      → s.answer ≡ some revision
      → pty_snapshot id s.channels ≡ some (pty, revision)

  abbrev pub Ended : Option Synced → Type 0
  Ended none = Unit {0}
  Ended (some s) = IsCurrent s

  stopped-IsCurrent :
      (applied : Option PtyRequest) (channels : Registry)
      → IsCurrent (record { answer = none; applied = applied; channels = channels })
  stopped-IsCurrent applied channels = λ pty revision h k. cc

  look-Ended :
      (pty : PtyRequest) (revision : ℕ) (now : Registry) (rest : PtyRequest → ℕ → Option Synced)
      (o : Option (PtyRequest × ℕ))
      → pty_snapshot id now ≡ o
      → ((latest : PtyRequest) (latest_revision : ℕ)
          → o ≡ some (latest, latest_revision)
          → revision ≡ latest_revision
          → pty ≡ latest)
      → ((latest : PtyRequest) (latest_revision : ℕ)
          → o ≡ some (latest, latest_revision)
          → Ended (rest latest latest_revision))
      → Ended (look pty revision now rest o)
  look-Ended pty revision now rest none e kept later = stopped-IsCurrent (some pty) now
  look-Ended pty revision now rest (some (latest, latest_revision)) e kept later =
      by_branch Ended (latest_revision == revision) settled λ h. later latest latest_revision refl
    where
      settled :
          (latest_revision == revision) ≡ true
          → IsCurrent (record { answer = some revision; applied = some pty; channels = now })
      settled h q v hq hv =
          let same : latest_revision ≡ revision = ground (arith, h) in
          let is_latest = kept latest latest_revision refl (sym same) in
          let is_applied : pty ≡ q = ground arith in
          let is_answer : revision ≡ v = ground arith in
          e
          ∙ ap₂ (λ (p : PtyRequest) (n : ℕ). some (p, n)) (sym is_latest ∙ is_applied)
              (same ∙ is_answer)

  synchronize_from-Ended :
      (rounds : List (List Op)) (s : S) (pty : PtyRequest) (revision : ℕ) (channels : Registry)
      → All (KeepClosed id) rounds
      → pty_snapshot id channels ≡ some (pty, revision)
      → Ended (synchronize_from rounds s pty revision channels)
  unfolding synchronize_from
  synchronize_from-Ended [] s pty revision channels closed e = tt
  synchronize_from-Ended (ops ∷ rounds) s pty revision channels closed e =
      by_branch Ended (resize s pty.rows pty.cols).0
        (λ h.
          look-Ended pty revision (run cap ops channels) _ (pty_snapshot id (run cap ops channels))
            refl
            (λ latest latest_revision f.
              (pty_snapshot-Newer cap id ops channels pty latest revision latest_revision closed.0 e
                f).1)
            λ latest latest_revision f.
              synchronize_from-Ended rounds (resize s pty.rows pty.cols).1 latest latest_revision
                (run cap ops channels) closed.1 f)
        λ h. stopped-IsCurrent none channels

  -- Where the window was synchronized with an answer, while the channel was not opened again, the size
  -- that was applied last is the one that the channel has then, at the revision of the answer.
  pub synchronize_window-Ended :
      (rounds : List (List Op)) (s : S) (channels : Registry)
      → All (KeepClosed id) rounds
      → Ended (synchronize_window rounds s channels)
  unfolding synchronize_window
  synchronize_window-Ended rounds s channels closed = started (pty_snapshot id channels) refl
    where
      started :
          (o : Option (PtyRequest × ℕ))
          → pty_snapshot id channels ≡ o
          → Ended (synchronize rounds s channels o)
      started none e = λ pty revision h k. cc
      started (some (pty, revision)) e =
          synchronize_from-Ended rounds s pty revision channels closed e

  -- At some look the window of the channel is the one of the look before; the first is on `channels`.
  abbrev pub SomeQuiet : List (List Op) → Registry → Type 0
  SomeQuiet [] channels = ⊥
  SomeQuiet (ops ∷ rounds) channels =
      (pty_snapshot id (run cap ops channels) ≡ pty_snapshot id channels)
      ⊎ SomeQuiet rounds (run cap ops channels)

  abbrev IsDone : Option Synced → Type 0
  IsDone o = (s : Synced) × (o ≡ some s)

  look-IsDone :
      (pty : PtyRequest) (revision : ℕ) (now : Registry) (rest : PtyRequest → ℕ → Option Synced)
      (o : Option (PtyRequest × ℕ))
      → (o ≡ some (pty, revision))
        ⊎ ((latest : PtyRequest) (latest_revision : ℕ)
            → o ≡ some (latest, latest_revision)
            → IsDone (rest latest latest_revision))
      → IsDone (look pty revision now rest o)
  look-IsDone pty revision now rest none h = (_, refl)
  look-IsDone pty revision now rest (some (latest, latest_revision)) (inl same) =
      by_branch IsDone (latest_revision == revision) (λ h. (_, refl))
        λ h. absurd (ground (arith, h, same))
  look-IsDone pty revision now rest (some (latest, latest_revision)) (inr later) =
      by_branch IsDone (latest_revision == revision) (λ h. (_, refl))
        λ h. later latest latest_revision refl

  synchronize_from-IsDone :
      (rounds : List (List Op)) (s : S) (pty : PtyRequest) (revision : ℕ) (channels : Registry)
      → SomeQuiet rounds channels
      → pty_snapshot id channels ≡ some (pty, revision)
      → IsDone (synchronize_from rounds s pty revision channels)
  unfolding synchronize_from
  synchronize_from-IsDone [] s pty revision channels h e = absurd h
  synchronize_from-IsDone (ops ∷ rounds) s pty revision channels h e =
      by_branch IsDone (resize s pty.rows pty.cols).0
        (λ k.
          look-IsDone pty revision (run cap ops channels) _ (pty_snapshot id (run cap ops channels))
            (next h λ later latest latest_revision f.
              synchronize_from-IsDone rounds (resize s pty.rows pty.cols).1 latest latest_revision
                (run cap ops channels) later f))
        λ k. (_, refl)
    where
      next :
          (pty_snapshot id (run cap ops channels) ≡ pty_snapshot id channels)
            ⊎ SomeQuiet rounds (run cap ops channels)
          → (SomeQuiet rounds (run cap ops channels)
              → (latest : PtyRequest) (latest_revision : ℕ)
              → pty_snapshot id (run cap ops channels) ≡ some (latest, latest_revision)
              → IsDone (
                  synchronize_from rounds
                    (resize s pty.rows pty.cols).1
                    latest
                    latest_revision
                    (run cap ops channels)))
          → (pty_snapshot id (run cap ops channels) ≡ some (pty, revision))
            ⊎ ((latest : PtyRequest) (latest_revision : ℕ)
                → pty_snapshot id (run cap ops channels) ≡ some (latest, latest_revision)
                → IsDone (
                    synchronize_from rounds
                      (resize s pty.rows pty.cols).1
                      latest
                      latest_revision
                      (run cap ops channels)))
      next (inl quiet) again = inl (quiet ∙ e)
      next (inr later) again = inr (again later)

  -- The loop ends if at some look the window of the channel is as it was at the look before.
  pub synchronize_window-returns :
      (rounds : List (List Op)) (s : S) (channels : Registry)
      → SomeQuiet rounds channels
      → (end : Synced) × (synchronize_window rounds s channels ≡ some end)
  unfolding synchronize_window
  synchronize_window-returns rounds s channels h = started (pty_snapshot id channels) refl
    where
      started :
          (o : Option (PtyRequest × ℕ))
          → pty_snapshot id channels ≡ o
          → IsDone (synchronize rounds s channels o)
      started none e = (_, refl)
      started (some (pty, revision)) e = synchronize_from-IsDone rounds s pty revision channels h e
