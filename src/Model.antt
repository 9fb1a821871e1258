-- ===== src/Model.antt =====
-- parseon-core/src/model.rs, and the parameter schema of parseon-core/src/abi.rs: the identities and
-- payloads that flow through the program. Fixed and dynamic byte strings are lists of bytes.
use parseon.Common.{ℕ, String, Bool, Option, none, some, List, saturating_add, if◌then◌else◌, eqb}
use parseon.Common.Int.{ℤ}

abbrev pub Bytes : Type 0
Bytes = List ℕ

abbrev pub Address : Type 0
Address = Bytes

abbrev pub B256 : Type 0
B256 = Bytes

abbrev pub Selector : Type 0
Selector = Bytes

abbrev pub BlockNumber : Type 0
BlockNumber = ℕ

abbrev pub MonitorId : Type 0
MonitorId = ℕ

pub record Chain : Type 0 where
  pub id : ℕ

-- `MonitorId::new`: zero is refused.
unfoldable pub new_monitor_id : ℕ → Option MonitorId
new_monitor_id id = if eqb id 0 then none else some id

-- `Cursor`: the last committed block.
abbrev pub Cursor : Type 0
Cursor = Option BlockNumber

-- `Cursor::next`
unfoldable pub next : Cursor → BlockNumber → BlockNumber
next none start_block = start_block
next (some block) start_block = saturating_add block 1

-- alloy's `DynSolType`: the scalar kinds, and any composite one by its name.
pub data SolType : Type 0 where
  bool address function bytes string : SolType
  int uint fixed_bytes : ℕ → SolType
  composite : String → SolType

-- `AbiParam`
pub record AbiParam : Type 0 where
  pub name : String
  pub ty : SolType
  pub indexed : Bool

pub record CallTarget : Type 0 where
  pub address : Address
  pub selector : Selector
  pub inputs : List AbiParam

pub record EventTarget : Type 0 where
  pub address : Address
  pub topic0 : B256
  pub params : List AbiParam

pub data Target : Type 0 where
  call : CallTarget → Target
  event : EventTarget → Target

pub data DecodedValue : Type 0 where
  uint : ℕ → DecodedValue
  int : ℤ → DecodedValue
  bool : Bool → DecodedValue
  address : Address → DecodedValue
  string : String → DecodedValue
  bytes : Bytes → DecodedValue

pub record BlockTransaction : Type 0 where
  pub hash : B256
  pub from : Address
  pub to : Address
  pub input : Bytes

pub record SourceBlock : Type 0 where
  pub number : BlockNumber
  pub transactions : List BlockTransaction

pub record ExecutionOutcome : Type 0 where
  pub transaction_hash : B256
  pub succeeded : Bool

pub record DecodedCall : Type 0 where
  pub monitor_id : MonitorId
  pub block_number : BlockNumber
  pub transaction_hash : B256
  pub from : Address
  pub to : Address
  pub params : List DecodedValue

pub record SourceLog : Type 0 where
  pub block_number : Option BlockNumber
  pub transaction_hash : Option B256
  pub log_index : Option ℕ
  pub address : Address
  pub topics : List B256
  pub log_data : Bytes
  pub removed : Bool

pub record DecodedEvent : Type 0 where
  pub monitor_id : MonitorId
  pub block_number : BlockNumber
  pub transaction_hash : B256
  pub log_index : ℕ
  pub params : List DecodedValue

pub data DecodedResult : Type 0 where
  call : DecodedCall → DecodedResult
  event : DecodedEvent → DecodedResult
