-- ===== src/Common/Enums.antt =====
-- src/common/enums.ts

pub data TxType : Type 0 where
  topup spend reward refund transfer game_stake game_payout game_refund : TxType

pub data GameType : Type 0 where
  caro tienlen bomberman : GameType

pub data GameMode : Type 0 where
  ranked wager casual : GameMode

pub data RoomStatus : Type 0 where
  waiting starting in_progress closed : RoomStatus

pub data FriendState : Type 0 where
  pending accepted blocked : FriendState

pub data MemberRole : Type 0 where
  owner admin member : MemberRole
