-- ===== src/Config.antt =====
-- config: the launch configuration. A parsed JSON value is data, its numbers and Booleans as their
-- text; the fields of an object stand in the order of their keys, each key once.
pub mod Secrets
pub mod Cache
pub mod Sections
pub mod Strings
pub mod Resolved
pub mod Load
pub mod Launch
pub mod References
pub mod Founding
pub mod Genesis
mod Tests
use ranke_db.Base.{List, Text}

mutual
  pub data Value : Type 0 where
    string : Text → Value
    null : Value
    literal : Text → Value
    object : Fields → Value
    array : Elements → Value

  pub data Fields : Type 0 where
    no_fields : Fields
    field : Text → Value → Fields → Fields

  pub data Elements : Type 0 where
    no_elements : Elements
    element : Value → Elements → Elements
