-- ===== src/Codec/Sync.antt =====
-- The search of the magic number, behind bytes that do not hold its first byte.
use i2pchat.Prelude.{
  ℕ, ◌+◌, ◌≤◌, ◌<◌, ◌≡◌, ◌≢◌, refl, ◌∙◌, false, [], ◌∷◌, ◌++◌, arith, length, All,
}
use i2pchat.Text.{str_eq}
use i2pchat.Codec.{Bytes, magic, ok, slide, sync}

-- Not the first byte of the magic number
abbrev pub IsJunk : Bytes → Type 0
IsJunk = All (λ b. b ≢ 0x89)

-- What the loop's window can be while only junk was read
abbrev IsWindow : Bytes → Type 0
IsWindow buf = IsJunk buf × (length buf ≤ 4) × (0 < length buf)

not_magic : (a : ℕ) (rest : Bytes) → a ≢ 0x89 → str_eq (a ∷ rest) magic ≡ false
unfolding str_eq
not_magic a rest h = ground arith

sync_step :
    (limit scanned a b : ℕ) (rest stream : Bytes)
    → a ≢ 0x89
    → scanned + 1 ≤ limit
    → sync limit (a ∷ rest) scanned (b ∷ stream)
      ≡ sync limit (slide (a ∷ rest ++ b ∷ [])) (scanned + 1) stream
unfolding sync
sync_step limit scanned a b rest stream h le = rw (not_magic a rest h) (ground arith)

sync_done : (limit scanned : ℕ) (stream : Bytes) → sync limit magic scanned stream ≡ ok stream
unfolding sync str_eq
sync_done limit scanned [] = refl
sync_done limit scanned (b ∷ stream) = refl

-- The four bytes of the magic number end the loop, whatever the window held.
sync-magic :
    (limit scanned : ℕ) (buf stream : Bytes)
    → IsWindow buf
    → scanned + 4 ≤ limit
    → sync limit buf scanned (magic ++ stream) ≡ ok stream
unfolding slide
sync-magic limit n [] stream w h = absurd (omega arith)
sync-magic limit n (a ∷ []) stream w h =
    let from = sync_step limit in
    from n a _ _ _ w.0.0 (omega arith)
    ∙ from (n + 1) a _ _ _ w.0.0 (omega arith)
    ∙ from (n + 1 + 1) a _ _ _ w.0.0 (omega arith)
    ∙ from (n + 1 + 1 + 1) a _ _ _ w.0.0 (omega arith)
    ∙ sync_done limit _ stream
sync-magic limit n (a ∷ b ∷ []) stream w h =
    let from = sync_step limit in
    from n a _ _ _ w.0.0 (omega arith)
    ∙ from (n + 1) a _ _ _ w.0.0 (omega arith)
    ∙ from (n + 1 + 1) a _ _ _ w.0.0 (omega arith)
    ∙ from (n + 1 + 1 + 1) b _ _ _ w.0.1.0 (omega arith)
    ∙ sync_done limit _ stream
sync-magic limit n (a ∷ b ∷ c ∷ []) stream w h =
    let from = sync_step limit in
    from n a _ _ _ w.0.0 (omega arith)
    ∙ from (n + 1) a _ _ _ w.0.0 (omega arith)
    ∙ from (n + 1 + 1) b _ _ _ w.0.1.0 (omega arith)
    ∙ from (n + 1 + 1 + 1) c _ _ _ w.0.1.1.0 (omega arith)
    ∙ sync_done limit _ stream
sync-magic limit n (a ∷ b ∷ c ∷ d ∷ []) stream w h =
    let from = sync_step limit in
    from n a _ _ _ w.0.0 (omega arith)
    ∙ from (n + 1) b _ _ _ w.0.1.0 (omega arith)
    ∙ from (n + 1 + 1) c _ _ _ w.0.1.1.0 (omega arith)
    ∙ from (n + 1 + 1 + 1) d _ _ _ w.0.1.1.1.0 (omega arith)
    ∙ sync_done limit _ stream
sync-magic limit n (a ∷ b ∷ c ∷ d ∷ e ∷ buf) stream w h = absurd (omega arith)

slide-IsWindow : (buf : Bytes) (b : ℕ) → IsWindow buf → b ≢ 0x89 → IsWindow (slide (buf ++ b ∷ []))
unfolding slide
slide-IsWindow [] x w h = absurd (omega arith)
slide-IsWindow (a ∷ []) x w h = ((w.0.0, (h, tt)), omega arith, omega arith)
slide-IsWindow (a ∷ b ∷ []) x w h = ((w.0.0, (w.0.1.0, (h, tt))), omega arith, omega arith)
slide-IsWindow (a ∷ b ∷ c ∷ []) x w h =
    ((w.0.0, (w.0.1.0, (w.0.1.1.0, (h, tt)))), omega arith, omega arith)
slide-IsWindow (a ∷ b ∷ c ∷ d ∷ []) x w h =
    ((w.0.1.0, (w.0.1.1.0, (w.0.1.1.1.0, (h, tt)))), omega arith, omega arith)
slide-IsWindow (a ∷ b ∷ c ∷ d ∷ e ∷ buf) x w h = absurd (omega arith)

-- Junk moves the window on.
pub sync_junk :
    (limit scanned : ℕ) (buf junk stream : Bytes)
    → IsWindow buf
    → IsJunk junk
    → scanned + length junk + 4 ≤ limit
    → sync limit buf scanned (junk ++ magic ++ stream) ≡ ok stream
sync_junk limit n buf [] stream w j h = sync-magic limit n buf stream w (omega arith)
sync_junk limit n [] (b ∷ junk) stream w j h = absurd (omega arith)
sync_junk limit n (a ∷ buf) (b ∷ junk) stream w j h =
    sync_step limit n a b buf (junk ++ magic ++ stream) w.0.0 (omega arith)
    ∙ sync_junk limit (n + 1) (slide (a ∷ buf ++ b ∷ [])) junk stream
        (slide-IsWindow (a ∷ buf) b w j.0) j.1 (omega arith)

pub sync_first :
    (limit : ℕ) (stream : Bytes)
    → 4 ≤ limit
    → sync limit (0x89 ∷ []) 1 (b'I' ∷ b'2' ∷ b'P' ∷ stream) ≡ ok stream
unfolding sync slide str_eq
sync_first limit [] h = ground arith
sync_first limit (b ∷ stream) h = ground arith
