-- ===== src/Store/Types.antt =====
-- The structs and enums of internal.h, proc.h, scheduler.h, chan.h, alt.h and csp.h. An address is a
-- number, a pointer that may be NULL an `Option`. Members that no function of the library uses
-- (`id`, `altQ_next`, `guard_skip`) are left out, and so are the link fields: the queues and trees
-- are lists of addresses. One thread is modelled, so `sched` of a PROC is the one scheduler.
use libproxc.Base.{ℕ, Bool, Option, List, ℤ}

pub data ProcState : Type 0 where
  error ready running sleeping ended chanwait runwait altwait altsleep : ProcState

pub record Proc : Type 0 where
  pub ctx_fresh : Bool  -- ctx is as ctx_init made it, so a switch to it enters proc_mainfxn
  pub state : ProcState
  pub fxn : ℕ
  pub args : List ℕ  -- args.ptr[0], …, args.ptr[args.num - 1]
  pub stack_ptr : ℕ
  pub stack_size : ℕ
  pub stack_used : ℕ
  pub sleep_us : ℕ
  pub proc_build : Option ℕ

pub data ChanEndType : Type 0 where
  writer reader alter : ChanEndType

pub record ChanEnd : Type 0 where
  pub type : ChanEndType
  pub data_ptr : ℕ
  pub chan : Option ℕ
  pub proc : Option ℕ
  pub guard : Option ℕ

-- A `struct ChanEnd` of `end_q` lives on the stack of the PROC that waits, one at most for each, and
-- its address is that PROC's; one of `alt_q` lives in its Guard, and its address is the Guard's.
pub record Chan : Type 0 where
  pub data_size : ℕ
  pub end_q : List ℕ
  pub alt_q : List ℕ

pub data GuardType : Type 0 where
  guard_skip guard_time guard_chan : GuardType

pub record Guard : Type 0 where
  pub type : GuardType
  pub key : ℤ
  pub alt : Option ℕ
  pub usec : ℕ
  pub chan : Option ℕ
  pub ch_end : ChanEnd
  pub data_ptr : ℕ
  pub data_size : ℕ
  pub in_chan : Bool

pub record Alt : Type 0 where
  pub key_count : ℕ
  pub is_accepted : Bool
  pub winner : Option ℕ
  pub ready_num : ℕ
  pub ready_guards : Option (List ℕ)  -- the array's first `ready_num` entries
  pub guards_num : ℕ
  pub guards_q : List ℕ
  pub guard_time : Option ℕ
  pub proc : ℕ

pub data BuildType : Type 0 where
  proc_build par_build seq_build : BuildType

-- The members of ProcBuild, ParBuild and SeqBuild behind the common header; `header.type` tells
-- which of them an address holds.
pub record Builder : Type 0 where
  pub type : BuildType
  pub parent : Option ℕ
  pub is_root : Bool
  pub run_proc : Option ℕ
  pub proc : Option ℕ  -- of ProcBuild
  pub num_childs : ℕ  -- of ParBuild and SeqBuild
  pub child_q : List ℕ  -- of ParBuild and SeqBuild
  pub curr_build : Option ℕ  -- of SeqBuild

pub record Scheduler : Type 0 where
  pub stack_size : ℕ
  pub page_size : ℕ
  pub is_exit : Bool
  pub main_proc : Option ℕ
  pub curr_proc : Option ℕ
  pub total_q : List ℕ
  pub ready_q : List ℕ
  pub sleep_num : ℕ
  pub sleep_rb : List ℕ
  pub altsleep_num : ℕ
  pub altsleep_rb : List ℕ

-- Everything in memory: the structs by address (`none` is memory that is not allocated), and the
-- bytes that channels copy.
pub record State : Type 0 where
  pub procs : ℕ → Option Proc
  pub chans : ℕ → Option Chan
  pub ends : ℕ → Option ChanEnd
  pub guards : ℕ → Option Guard
  pub alts : ℕ → Option Alt
  pub builds : ℕ → Option Builder
  pub bytes : ℕ → ℕ
  pub sched : Scheduler
