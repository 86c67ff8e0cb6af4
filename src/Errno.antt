-- ===== src/Errno.antt =====
-- lib/vxw_defs.h: the error codes that the calls leave in `errno`, and how a call ends.
use cross_compile.Base.{ℕ}

pub data Errno : Type 0 where
  not_enough_memory : Errno  -- S_memLib_NOT_ENOUGH_MEMORY
  invalid_msg_length : Errno  -- S_msgQLib_INVALID_MSG_LENGTH
  obj_deleted : Errno  -- S_objLib_OBJ_DELETED
  obj_id_error : Errno  -- S_objLib_OBJ_ID_ERROR
  obj_timeout : Errno  -- S_objLib_OBJ_TIMEOUT
  obj_unavailable : Errno  -- S_objLib_OBJ_UNAVAILABLE
  invalid_operation : Errno  -- S_semLib_INVALID_OPERATION
  illegal_priority : Errno  -- S_taskLib_ILLEGAL_PRIORITY
  enosys : Errno  -- ENOSYS

-- OK with a value, or ERROR with the code that `errno` is set to.
pub data Result (A : Type 0) : Type 0 where
  ok : A → Result A
  error : Errno → Result A

-- `int max_wait`: NO_WAIT, WAIT_FOREVER, or a number of ticks above 0.
pub data Wait : Type 0 where
  no_wait : Wait
  wait_forever : Wait
  ticks : ℕ → Wait

-- What pthread_cond_timedwait left in `retcode`: OK, ETIMEDOUT, or another code such as EINVAL.
pub data RetCode : Type 0 where
  awake : RetCode
  etimedout : RetCode
  failed : RetCode
