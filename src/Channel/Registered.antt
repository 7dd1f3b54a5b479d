-- ===== src/Channel/Registered.antt =====
-- event/Channel.h: the status of a channel that was enabled or disabled.
use musketeer.Prelude.{◌≡◌, false, arith, ok}
use musketeer.Channel.{
  Watched, is_new, enable_reading, disable_reading, enable_writing, disable_writing,
}

pub enable_reading_registers :
    (w w' : Watched) → enable_reading w ≡ ok w' → is_new w'.chan.status ≡ false
unfolding enable_reading
enable_reading_registers w w' e = ground (arith, e)

pub disable_reading_registers :
    (w w' : Watched) → disable_reading w ≡ ok w' → is_new w'.chan.status ≡ false
unfolding disable_reading
disable_reading_registers w w' e = ground (arith, e)

pub enable_writing_registers :
    (w w' : Watched) → enable_writing w ≡ ok w' → is_new w'.chan.status ≡ false
unfolding enable_writing
enable_writing_registers w w' e = ground (arith, e)

pub disable_writing_registers :
    (w w' : Watched) → disable_writing w ≡ ok w' → is_new w'.chan.status ≡ false
unfolding disable_writing
disable_writing_registers w w' e = ground (arith, e)
