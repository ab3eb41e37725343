-- ===== src/Logger/Event.antt =====
-- The calls of the logger that a component makes, as values, in the order of the calls.
use hermit_miner.Base.{Bytes}

pub data LogLevel : Type 0 where
  debug_level info_level warn_level err_level : LogLevel

pub record Event : Type 0 where
  pub level : LogLevel
  pub component : Bytes
  pub node_id : Bytes
  pub message : Bytes
  pub context : Bytes

abbrev pub debug : Bytes → Bytes → Bytes → Bytes → Event
debug component node_id message context = record {
  level = debug_level;
  component = component;
  node_id = node_id;
  message = message;
  context = context;
}

abbrev pub info : Bytes → Bytes → Bytes → Bytes → Event
info component node_id message context = record {
  level = info_level;
  component = component;
  node_id = node_id;
  message = message;
  context = context;
}

abbrev pub warn : Bytes → Bytes → Bytes → Bytes → Event
warn component node_id message context = record {
  level = warn_level;
  component = component;
  node_id = node_id;
  message = message;
  context = context;
}

abbrev pub error : Bytes → Bytes → Bytes → Bytes → Event
error component node_id message context = record {
  level = err_level;
  component = component;
  node_id = node_id;
  message = message;
  context = context;
}
