-- ===== src/Channel/Events.antt =====
-- The interest masks that a channel can have, and what each switch does to them.
use Prim.Native.Nat.{bit_and, bit_or}
use cppnetool.Prelude.{ℕ, ◌≡◌, refl, not, ◌==◌, ◌-◌, ◌^◌, Bool, true, false, ◌&&◌, List, [], ◌∷◌}
use cppnetool.Channel.{
  Channel, new, is_reading, is_writing, is_none_event, enable_reading, enable_writing,
  disable_writing, disable_all, read_event, write_event, none_event, has,
}

-- The four functions that change the interest.
pub data Switch : Type 0 where
  read_on write_on write_off all_off : Switch

unfoldable pub apply : Switch → Channel → Channel
apply read_on = enable_reading
apply write_on = enable_writing
apply write_off = disable_writing
apply all_off = disable_all

unfoldable pub apply_all : List Switch → Channel → Channel
apply_all [] c = c
apply_all (s ∷ ss) c = apply_all ss (apply s c)

-- What the switches mean, with no bits.
pub record Interest : Type 0 where
  pub reading : Bool
  pub writing : Bool

abbrev pub interest : Channel → Interest
interest c = record { reading = is_reading c; writing = is_writing c }

unfoldable pub switch : Switch → Interest → Interest
switch read_on i = record i { reading = true }
switch write_on i = record i { writing = true }
switch write_off i = record i { writing = false }
switch all_off i = record { reading = false; writing = false }

unfoldable pub switch_all : List Switch → Interest → Interest
switch_all [] i = i
switch_all (s ∷ ss) i = switch_all ss (switch s i)

abbrev pub mask_of : Bool → Bool → ℕ
mask_of false false = none_event
mask_of true false = read_event
mask_of false true = write_event
mask_of true true = bit_or read_event write_event

-- The mask of an interest.
abbrev pub mask : Interest → ℕ
mask i = mask_of i.reading i.writing

or_read : (r w : Bool) → bit_or (mask_of r w) read_event ≡ mask_of true w
or_read false false = refl
or_read true false = refl
or_read false true = refl
or_read true true = refl

or_write : (r w : Bool) → bit_or (mask_of r w) write_event ≡ mask_of r true
or_write false false = refl
or_write true false = refl
or_write false true = refl
or_write true true = refl

and_write : (r w : Bool) → bit_and (mask_of r w) (2 ^ 32 - 1 - write_event) ≡ mask_of r false
and_write false false = refl
and_write true false = refl
and_write false true = refl
and_write true true = refl

tests :
    (r w : Bool)
    → (has (mask_of r w) read_event ≡ r)
      × (has (mask_of r w) write_event ≡ w)
      × ((mask_of r w == none_event) ≡ (not r && not w))
tests false false = (refl, refl, refl)
tests true false = (refl, refl, refl)
tests false true = (refl, refl, refl)
tests true true = (refl, refl, refl)

pub events-apply :
    (s : Switch) (c : Channel) (i : Interest)
    → c.events ≡ mask i
    → (apply s c).events ≡ mask (switch s i)
unfolding apply switch enable_reading enable_writing disable_writing disable_all
events-apply read_on c i e = rw e (or_read i.reading i.writing)
events-apply write_on c i e = rw e (or_write i.reading i.writing)
events-apply write_off c i e = rw e (and_write i.reading i.writing)
events-apply all_off c i e = refl

pub is_writing-mask : (c : Channel) (r w : Bool) → c.events ≡ mask_of r w → is_writing c ≡ w
is_writing-mask c r w e = rw e ((tests r w).1)

pub events-apply_all :
    (ss : List Switch) (c : Channel) (i : Interest)
    → c.events ≡ mask i
    → (apply_all ss c).events ≡ mask (switch_all ss i)
unfolding apply_all switch_all
events-apply_all [] c i e = e
events-apply_all (s ∷ ss) c i e =
    events-apply_all ss (apply s c) (switch s i) (events-apply s c i e)

abbrev pub no_interest : Interest
no_interest = record { reading = false; writing = false }

-- After any calls of the four switches a channel is watched for reading and for writing exactly as
-- the last calls say, and `isNoneEvent` holds exactly where it is watched for neither.
pub apply_all_lem :
    (ss : List Switch) (fd : ℕ)
    → let c = apply_all ss (new fd) in
      let i = switch_all ss no_interest in
      (is_reading c ≡ i.reading)
      × (is_writing c ≡ i.writing)
      × (is_none_event c ≡ (not i.reading && not i.writing))
unfolding new
apply_all_lem ss fd =
    let i = switch_all ss no_interest in
    let e = events-apply_all ss (new fd) no_interest refl in rw e (tests i.reading i.writing)
