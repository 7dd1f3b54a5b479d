-- ===== src/Channel/Keeping.antt =====
-- event/Channel.cpp: no call on a channel changes its descriptor.
use musketeer.Prelude.{◌≡◌, arith, ok}
use musketeer.Channel.{Watched, register, enable_writing, disable_all}

pub disable_all_keeps_fd : (w w' : Watched) → disable_all w ≡ ok w' → w'.chan.fd ≡ w.chan.fd
unfolding disable_all
disable_all_keeps_fd w w' e = ground (arith, e)

pub enable_writing_keeps_fd : (w w' : Watched) → enable_writing w ≡ ok w' → w'.chan.fd ≡ w.chan.fd
unfolding enable_writing
enable_writing_keeps_fd w w' e = ground (arith, e)

pub register_keeps_fd : (w w' : Watched) → register w ≡ ok w' → w'.chan.fd ≡ w.chan.fd
unfolding register
register_keeps_fd w w' e = ground (arith, e)
