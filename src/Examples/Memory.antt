-- ===== src/Examples/Memory.antt =====
-- The store's tables in memory: a database whose every statement has its effect.
use access_security_system_e.Common.{true}
use access_security_system_e.Store.{Tables, effect, AccessDb, HasEffect}

abbrev pub memory : AccessDb Tables
memory = record { tables = λ s. s; readable = λ s. true; exec = λ s q. effect q s }

pub memory-HasEffect : HasEffect memory
memory-HasEffect = record { executed = λ s s' q e. e }
