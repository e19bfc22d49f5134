-- ===== src/Subid/Ledger/Codec/Injective.antt =====
-- `LeaseRecord::encode` of crates/shbox/src/sandbox/subid/ledger.rs loses nothing of a record. Of the
-- formats `{:?}` and `{}` it relies on this: no two values have one format, and none breaks a line.
use shbox.Prelude.{ℕ, ◌≡◌, ◌≢◌, refl, sym, ap, ◌∙◌, [], ◌∷◌, ◌++◌, Option, none, some, All, arith}
use mathlib.Core.List.{append_assoc}
use shbox.Prelude.Bytes.{Bytes, codes}
use shbox.Subid.Ledger.{LeaseRecord, LeaseState, as_str, parse_state}
use shbox.Subid.Ledger.Codec.{Texts, encode, line, reason_line, version}
use shbox.Subid.Ledger.Codec.Roundtrip.{parse_state-as_str}

-- No line feed.
abbrev pub IsOneLine : Bytes → Type 0
IsOneLine = All λ b. b ≢ 10

-- What the formats of the standard library do.
pub record AreFormats (texts : Texts) : Type 0 where
  pub debug_line : (t : Bytes) → IsOneLine (Texts.debug texts t)
  pub display_line : (n : ℕ) → IsOneLine (Texts.display texts n)
  pub debug_one : (t u : Bytes) → Texts.debug texts t ≡ Texts.debug texts u → t ≡ u
  pub display_one : (n m : ℕ) → Texts.display texts n ≡ Texts.display texts m → n ≡ m

cancel_prefix : (p v w x y : Bytes) → (p ++ v) ++ x ≡ (p ++ w) ++ y → v ++ x ≡ w ++ y
cancel_prefix [] v w x y e = e
cancel_prefix (b ∷ p) v w x y e = cancel_prefix p v w x y (ground arith)

cut :
    (v w x y : Bytes)
    → IsOneLine v
    → IsOneLine w
    → (v ++ 10 ∷ []) ++ x ≡ (w ++ 10 ∷ []) ++ y
    → (v ≡ w) × (x ≡ y)
cut [] [] x y h k e = (refl, ground arith)
cut [] (c ∷ w) x y h k e = absurd (k.0 (ground arith))
cut (b ∷ v) [] x y h k e = absurd (h.0 (ground arith))
cut (b ∷ v) (c ∷ w) x y h k e =
    let (same, rest) = cut v w x y h.1 k.1 (ground arith) in
    let head : b ≡ c = ground arith in (rw (head, same) refl, rest)

nest_line : (a b c d x : Bytes) → (a ++ b ++ c ++ d) ++ x ≡ (a ++ (b ++ (c ++ d))) ++ x
nest_line a b c d x = simp (append_assoc)

nest_lines :
    (a b c d e f g h : Bytes)
    → a ++ b ++ c ++ d ++ e ++ f ++ g ++ h ≡ a ++ (b ++ (c ++ (d ++ (e ++ (f ++ (g ++ h))))))
nest_lines a b c d e f g h = simp (append_assoc)

module _ (texts : Texts) where
  -- Two texts that begin with a line of the same key have the same value there, and go on alike.
  first_line :
      (key v w x y : Bytes)
      → IsOneLine v
      → IsOneLine w
      → line texts key v ++ x ≡ line texts key w ++ y
      → (v ≡ w) × (x ≡ y)
  first_line key v w x y h k e = cut v w x y h k (
      cancel_prefix (codes " = ") (v ++ 10 ∷ []) (w ++ 10 ∷ []) x y (
        cancel_prefix key (codes " = " ++ (v ++ 10 ∷ [])) (codes " = " ++ (w ++ 10 ∷ [])) x y (
          sym (nest_line key (codes " = ") v (10 ∷ []) x)
          ∙ e
          ∙ nest_line key (codes " = ") w (10 ∷ []) y)))

  -- The text of a record from each of its lines on.
  abbrev from_state : LeaseRecord → Bytes
  from_state r =
      line texts (codes "state") (Texts.debug texts (as_str r.state))
      ++ reason_line texts r.quarantine_reason

  abbrev from_gid : LeaseRecord → Bytes
  from_gid r = line texts (codes "gid") (Texts.display texts r.gid) ++ from_state r

  abbrev from_uid : LeaseRecord → Bytes
  from_uid r = line texts (codes "uid") (Texts.display texts r.uid) ++ from_gid r

  abbrev from_owner : LeaseRecord → Bytes
  from_owner r = line texts (codes "owner") (Texts.debug texts r.owner) ++ from_uid r

  abbrev from_sandbox : LeaseRecord → Bytes
  from_sandbox r = line texts (codes "sandbox_id") (Texts.debug texts r.sandbox_id) ++ from_owner r

  abbrev from_lease : LeaseRecord → Bytes
  from_lease r = line texts (codes "lease_id") (Texts.debug texts r.lease_id) ++ from_sandbox r

  as_str_one : (s t : LeaseState) → as_str s ≡ as_str t → s ≡ t
  as_str_one s t e =
      let same = sym (parse_state-as_str s) ∙ ap parse_state e ∙ parse_state-as_str t in
      ground arith

  module _ (formats : AreFormats texts) where
    text_line :
        (key t u x y : Bytes)
        → line texts key (Texts.debug texts t) ++ x ≡ line texts key (Texts.debug texts u) ++ y
        → (t ≡ u) × (x ≡ y)
    text_line key t u x y e =
        let (same, rest) = first_line key _ _ x y (formats.debug_line t) (formats.debug_line u) e in
        (formats.debug_one t u same, rest)

    number_line :
        (key : Bytes) (n m : ℕ) (x y : Bytes)
        → line texts key (Texts.display texts n) ++ x ≡ line texts key (Texts.display texts m) ++ y
        → (n ≡ m) × (x ≡ y)
    number_line key n m x y e =
        let (same, rest) =
          first_line key _ _ x y (formats.display_line n) (formats.display_line m) e in
        (formats.display_one n m same, rest)

    last_line : (o p : Option Bytes) → reason_line texts o ≡ reason_line texts p → o ≡ p
    last_line none none e = refl
    last_line none (some u) e = absurd (cc)
    last_line (some t) none e = absurd (cc)
    last_line (some t) (some u) e =
        let (same, rest) = text_line (codes "quarantine_reason") t u [] [] (ap (λ l. l ++ []) e) in
        ap some same

    encode_lines :
        (r : LeaseRecord)
        → encode texts r
          ≡ line texts (codes "version") (Texts.display texts version) ++ from_lease r
    unfolding encode
    encode_lines r =
        nest_lines (line texts (codes "version") (Texts.display texts version))
          (line texts (codes "lease_id") (Texts.debug texts r.lease_id))
          (line texts (codes "sandbox_id") (Texts.debug texts r.sandbox_id))
          (line texts (codes "owner") (Texts.debug texts r.owner))
          (line texts (codes "uid") (Texts.display texts r.uid))
          (line texts (codes "gid") (Texts.display texts r.gid))
          (line texts (codes "state") (Texts.debug texts (as_str r.state)))
          (reason_line texts r.quarantine_reason)

    -- Where no two values have one format and no format breaks a line, no two records have one text:
    -- the text of a record keeps every field.
    pub encode-injective : (r q : LeaseRecord) → encode texts r ≡ encode texts q → r ≡ q
    encode-injective r q e =
        let (_, e1) =
          number_line (codes "version") version version (from_lease r) (from_lease q)
            (sym (encode_lines r) ∙ e ∙ encode_lines q) in
        let (lease, e2) =
          text_line (codes "lease_id") r.lease_id q.lease_id (from_sandbox r) (from_sandbox q) e1 in
        let (sandbox, e3) =
          text_line (codes "sandbox_id") r.sandbox_id q.sandbox_id (from_owner r) (from_owner q)
            e2 in
        let (owner, e4) = text_line (codes "owner") r.owner q.owner (from_uid r) (from_uid q) e3 in
        let (uid, e5) = number_line (codes "uid") r.uid q.uid (from_gid r) (from_gid q) e4 in
        let (gid, e6) = number_line (codes "gid") r.gid q.gid (from_state r) (from_state q) e5 in
        let (state, e7) =
          text_line (codes "state") (as_str r.state) (as_str q.state)
            (reason_line texts r.quarantine_reason) (reason_line texts q.quarantine_reason) e6 in
        let reason = last_line r.quarantine_reason q.quarantine_reason e7 in
        let same_state = as_str_one r.state q.state state in
        rw (lease, sandbox, owner, uid, gid, same_state, reason) refl
