-- ===== src/Common.antt =====
-- What the services share: the enumerations of src/common/enums.ts, the exceptions of NestJS
-- that a handler throws, and handlers as actions over the stored state.
pub mod Enums
pub mod Action
