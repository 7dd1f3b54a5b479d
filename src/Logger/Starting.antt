-- ===== src/Logger/Starting.antt =====
-- base/Logger.cpp, `StartThread`: how the logger comes to take lines.
use musketeer.Prelude.{
  ℕ, ◌≡◌, refl, sym, ap, true, false, none, some, fault, aborted, Returns, Returns-value,
}
use musketeer.Prelude.Assoc.{lookup}
use musketeer.Errors.{SysResult, Errno, failed, done}
use musketeer.Channel.{Watched, make}
use musketeer.Channel.Events.{has, crevent}
use musketeer.Channel.Lifecycle.{Inv}
use musketeer.CycleThread.{start}
use musketeer.TaskQueue.EventFd.{Eventfd}
use musketeer.TaskQueue.Starting.{cycle_after, init_lem, init as init_eventfd}
use musketeer.Logger.{Logger, init_tasks, start_thread}

module _ {fd : Eventfd} {T : Type 0} where
  -- The logger's thread waits for tasks on an eventfd, and the file is open.
  pub record TakesLines (n id : ℕ) (before l : Logger fd T) : Type 0 where
    pub on : l.inited ≡ true
    pub file : l.file_open ≡ true
    pub event_fd : l.wakeup.event_fd ≡ some n
    pub channel : Watched
    pub channel_is : l.wakeup.channel ≡ some channel
    pub inv : Inv channel
    pub same_cycle : channel.cycle ≡ l.log_thread.event_cycle
    pub reading : has channel.chan.events crevent ≡ true
    pub read_callback : channel.chan.read_callback ≡ true
    pub thread : l.log_thread.thread_id ≡ some id
    pub level_kept : l.level ≡ before.level
    pub queue_kept : l.task_queue ≡ before.task_queue

  -- Where the file can be opened and the kernel gives an eventfd that the logger's cycle does not know,
  -- `StartThread` of a logger that has no eventfd yet returns, and the logger takes lines. Where the file cannot be
  -- opened the program stops; where there is no eventfd, `StartThread` returns and nothing tells the caller.
  pub start_thread-TakesLines :
      (n address id index : ℕ) (e : Errno) (res : SysResult) (l : Logger fd T)
      → lookup n l.log_thread.event_cycle.all_channels ≡ none
      → l.wakeup.channel ≡ none
      → Returns (TakesLines n id l) (start_thread true (done n) address id index l)
        × Returns
            (λ l'. (l'.inited ≡ true) × (l'.wakeup.event_fd ≡ none))
            (start_thread true (failed e) address id index l)
        × (start_thread false res address id index l ≡ fault aborted)
  unfolding start_thread init_tasks start
  start_thread-TakesLines n address id index e res l free new =
      let (given, missing, again) =
        init_lem n address e res l.log_thread.event_cycle l.wakeup
          (make l.log_thread.event_cycle address n) free new in
      let (s, es, (efd, v, here, p)) =
        Returns-value _ (init_eventfd (done n) l.log_thread.event_cycle address l.wakeup) given in
      (
        rw es (record {
          on = refl;
          file = refl;
          event_fd = efd;
          channel = v;
          channel_is = here;
          inv = p.inv;
          same_cycle = ap (λ c. cycle_after c l.log_thread.event_cycle) (sym here);
          reading = p.reading;
          read_callback = p.read_callback;
          thread = refl;
          level_kept = refl;
          queue_kept = refl;
        }),
        rw missing (refl, refl),
        refl,
      )
