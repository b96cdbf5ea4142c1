-- ===== src/Net/Channel/Events.antt =====
-- The interest mask of net/Channel.h under the calls that change it.
use Prim.Native.Nat.{bit_or}
use slack.Base.{ℕ, ◌≡◌, ◌∙◌, refl, ap, Bool, true, false, not, ◌&&◌}
use slack.Base.{◌==◌, sym}
use mathlib.Core.Path.{ap₂}
use slack.Net.Channel.{
  Channel, has, without, read_event, write_event, none_event, is_reading, is_writing, is_none_event,
  enable_reading, disable_reading, enable_writing, disable_writing, disable_all,
}

-- The mask of a channel that watches for reading, for writing, for both or for neither.
abbrev pub mask_of : Bool → Bool → ℕ
mask_of false false = 0
mask_of true false = 3
mask_of false true = 4
mask_of true true = 7

abbrev pub Shows : Channel → Bool → Bool → Type 0
Shows c reading writing = c.events ≡ mask_of reading writing

table_or_read : (r w : Bool) → bit_or (mask_of r w) read_event ≡ mask_of true w
table_or_read false false = refl
table_or_read true false = refl
table_or_read false true = refl
table_or_read true true = refl

table_or_write : (r w : Bool) → bit_or (mask_of r w) write_event ≡ mask_of r true
table_or_write false false = refl
table_or_write true false = refl
table_or_write false true = refl
table_or_write true true = refl

table_without_read : (r w : Bool) → without (mask_of r w) read_event ≡ mask_of false w
unfolding without
table_without_read false false = refl
table_without_read true false = refl
table_without_read false true = refl
table_without_read true true = refl

table_without_write : (r w : Bool) → without (mask_of r w) write_event ≡ mask_of r false
unfolding without
table_without_write false false = refl
table_without_write true false = refl
table_without_write false true = refl
table_without_write true true = refl

table_reading : (r w : Bool) → has (mask_of r w) read_event ≡ r
unfolding has
table_reading false false = refl
table_reading true false = refl
table_reading false true = refl
table_reading true true = refl

table_writing : (r w : Bool) → has (mask_of r w) write_event ≡ w
unfolding has
table_writing false false = refl
table_writing true false = refl
table_writing false true = refl
table_writing true true = refl

table_none : (r w : Bool) → (mask_of r w == none_event) ≡ (not r && not w)
table_none false false = refl
table_none true false = refl
table_none false true = refl
table_none true true = refl

module _ (c : Channel) (r w : Bool) (s : Shows c r w) where
  enable_reading-Shows : Shows (enable_reading c) true w
  unfolding enable_reading
  enable_reading-Shows = ap (λ n. bit_or n read_event) s ∙ table_or_read r w

  disable_reading-Shows : Shows (disable_reading c) false w
  unfolding disable_reading
  disable_reading-Shows = ap (λ n. without n read_event) s ∙ table_without_read r w

  enable_writing-Shows : Shows (enable_writing c) r true
  unfolding enable_writing
  enable_writing-Shows = ap (λ n. bit_or n write_event) s ∙ table_or_write r w

  disable_writing-Shows : Shows (disable_writing c) r false
  unfolding disable_writing
  disable_writing-Shows = ap (λ n. without n write_event) s ∙ table_without_write r w

  is_reading-Shows : is_reading c ≡ r
  is_reading-Shows = ap (λ n. has n read_event) s ∙ table_reading r w

  is_writing-Shows : is_writing c ≡ w
  is_writing-Shows = ap (λ n. has n write_event) s ∙ table_writing r w

  is_none_event-Shows : is_none_event c ≡ (not r && not w)
  is_none_event-Shows = ap (λ n. n == none_event) s ∙ table_none r w

disable_all-Shows : (c : Channel) → Shows (disable_all c) false false
unfolding disable_all
disable_all-Shows c = refl

-- The mask is one that the calls of net/Channel.h can build.
pub data IsMasked (c : Channel) : Type 0 where
  masked : (r w : Bool) → Shows c r w → IsMasked c

-- What a channel watches for.
pub record Watches (c : Channel) (reading writing : Bool) : Type 0 where
  pub is_masked : IsMasked c
  pub reading_eq : is_reading c ≡ reading
  pub writing_eq : is_writing c ≡ writing

Shows-Watches : (c : Channel) (r w : Bool) → Shows c r w → Watches c r w
Shows-Watches c r w s = record {
  is_masked = masked r w s;
  reading_eq = is_reading-Shows c r w s;
  writing_eq = is_writing-Shows c r w s;
}

-- Each call changes the bits that it is about and no other.
pub enable_reading-Watches :
    (c : Channel) → IsMasked c → Watches (enable_reading c) true (is_writing c)
enable_reading-Watches c (masked r w s) =
    rw (is_writing-Shows c r w s) (Shows-Watches _ true w (enable_reading-Shows c r w s))

pub disable_reading-Watches :
    (c : Channel) → IsMasked c → Watches (disable_reading c) false (is_writing c)
disable_reading-Watches c (masked r w s) =
    rw (is_writing-Shows c r w s) (Shows-Watches _ false w (disable_reading-Shows c r w s))

pub enable_writing-Watches :
    (c : Channel) → IsMasked c → Watches (enable_writing c) (is_reading c) true
enable_writing-Watches c (masked r w s) =
    rw (is_reading-Shows c r w s) (Shows-Watches _ r true (enable_writing-Shows c r w s))

pub disable_writing-Watches :
    (c : Channel) → IsMasked c → Watches (disable_writing c) (is_reading c) false
disable_writing-Watches c (masked r w s) =
    rw (is_reading-Shows c r w s) (Shows-Watches _ r false (disable_writing-Shows c r w s))

pub disable_all-Watches : (c : Channel) → Watches (disable_all c) false false
disable_all-Watches c = Shows-Watches _ false false (disable_all-Shows c)

-- A channel may be removed exactly when it watches for nothing.
pub is_none_event-IsMasked :
    (c : Channel) → IsMasked c → is_none_event c ≡ (not (is_reading c) && not (is_writing c))
is_none_event-IsMasked c (masked r w s) =
    is_none_event-Shows c r w s
    ∙ sym (ap₂ (λ x y. not x && not y) (is_reading-Shows c r w s) (is_writing-Shows c r w s))
