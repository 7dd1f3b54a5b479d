-- ===== src/Channel/Calls.antt =====
-- event/Channel.h: calls that return, and all that they leave.
use musketeer.Prelude.{
  ℕ, ◌≡◌, refl, true, false, inl, inr, none, some, arith, fault, assertion, Returns, ◌==◌,
}
use musketeer.Prelude.Assoc.{lookup, lookup-insert}
use musketeer.Channel.{
  Cycle, Watched, set, removed, make, register, enable_reading, enable_writing, disable_all,
  set_status, add_to_map,
}
use musketeer.Channel.Events.{has, crevent, cwevent}
use musketeer.Channel.Lifecycle.{Inv}

-- What no call of a channel changes, besides what it is for.
pub record Keeps (w w' : Watched) : Type 0 where
  pub fd_kept : w'.chan.fd ≡ w.chan.fd
  pub id_kept : w'.id ≡ w.id
  pub read_callback_kept : w'.chan.read_callback ≡ w.chan.read_callback
  pub write_callback_kept : w'.chan.write_callback ≡ w.chan.write_callback
  pub error_callback_kept : w'.chan.error_callback ≡ w.chan.error_callback
  pub others_kept :
      (k : ℕ)
      → (k == w.chan.fd) ≡ false
      → lookup k w'.cycle.all_channels ≡ lookup k w.cycle.all_channels

-- A channel that was made on a free descriptor and registered.
pub record Registered (c : Cycle) (id fd : ℕ) (w : Watched) : Type 0 where
  pub inv : Inv w
  pub status : w.chan.status ≡ removed
  pub idle : w.chan.events ≡ 0
  pub keeps : Keeps (make c id fd) w

pub register_lem :
    (c : Cycle) (id fd : ℕ)
    → lookup fd c.all_channels ≡ none
    → Returns (Registered c id fd) (register (make c id fd))
unfolding make register set_status add_to_map
register_lem c id fd h = rw h (record {
  inv = record {
    interest = inl refl;
    watched = refl;
    mapped = ground (arith, lookup-insert fd fd id c.all_channels);
  };
  status = refl;
  idle = refl;
  keeps = record {
    fd_kept = refl;
    id_kept = refl;
    read_callback_kept = refl;
    write_callback_kept = refl;
    error_callback_kept = refl;
    others_kept = λ k d. ground (arith, lookup-insert fd k id c.all_channels);
  };
})

pub register_taken :
    (c : Cycle) (id fd x : ℕ)
    → lookup fd c.all_channels ≡ some x
    → register (make c id fd) ≡ fault assertion
unfolding make register
register_taken c id fd x h = ground arith

-- A channel that waits for writing, and left the rest alone.
pub record EnablesWriting (w w' : Watched) : Type 0 where
  pub inv : Inv w'
  pub status : w'.chan.status ≡ set
  pub writing : has w'.chan.events cwevent ≡ true
  pub keeps : Keeps w w'

-- A channel that waits for nothing, and stays in the map.
pub record DisablesAll (w w' : Watched) : Type 0 where
  pub inv : Inv w'
  pub status : w'.chan.status ≡ removed
  pub idle : w'.chan.events ≡ 0
  pub keeps : Keeps w w'
  pub map_kept : w'.cycle.all_channels ≡ w.cycle.all_channels

pub disable_all_lem :
    (w : Watched) → Inv w → w.chan.status ≡ set → Returns (DisablesAll w) (disable_all w)
unfolding disable_all
disable_all_lem w v h = rw h (record {
  inv = record { interest = inl refl; watched = refl; mapped = ground (arith, v.mapped, h) };
  status = refl;
  idle = refl;
  keeps = record {
    fd_kept = refl;
    id_kept = refl;
    read_callback_kept = refl;
    write_callback_kept = refl;
    error_callback_kept = refl;
    others_kept = λ k d. refl;
  };
  map_kept = refl;
})

pub enable_writing_lem :
    (w : Watched)
    → Inv w
    → w.chan.status ≡ removed
    → w.chan.events ≡ 0
    → w.chan.write_callback ≡ true
    → Returns (EnablesWriting w) (enable_writing w)
unfolding enable_writing
enable_writing_lem w v h e c =
    rw (e, h, c)
      (record {
        inv = record {
          interest = inr (inr (inl refl));
          watched = refl;
          mapped = ground (arith, v.mapped, h);
        };
        status = refl;
        writing = refl;
        keeps = record {
          fd_kept = refl;
          id_kept = refl;
          read_callback_kept = refl;
          write_callback_kept = refl;
          error_callback_kept = refl;
          others_kept = λ k d. refl;
        };
      })

-- A channel that waits for reading, and left the rest alone.
pub record EnablesReading (w w' : Watched) : Type 0 where
  pub inv : Inv w'
  pub status : w'.chan.status ≡ set
  pub reading : has w'.chan.events crevent ≡ true
  pub keeps : Keeps w w'

pub enable_reading_all :
    (w : Watched)
    → Inv w
    → w.chan.read_callback ≡ true
    → w.chan.status ≡ removed
    → w.chan.events ≡ 0
    → Returns (EnablesReading w) (enable_reading w)
unfolding enable_reading
enable_reading_all w v c h e =
    rw (e, h, c)
      (record {
        inv = record {
          interest = inr (inl refl);
          watched = refl;
          mapped = ground (arith, v.mapped, h);
        };
        status = refl;
        reading = refl;
        keeps = record {
          fd_kept = refl;
          id_kept = refl;
          read_callback_kept = refl;
          write_callback_kept = refl;
          error_callback_kept = refl;
          others_kept = λ k d. refl;
        };
      })
