-- ===== src/Cometa/Types.antt =====
-- comon/cometa.h: the records of the metadata.
use comon.Base.{Bool, Text}
use comon.Guid.{Guid}

pub data CotypeKind : Type 0 where
  interface disp_interface : CotypeKind

pub record Cotype : Type 0 where
  pub iid : Guid
  pub name : Text
  pub type : CotypeKind
  pub parent_iid : Guid
  pub methods_available : Bool

pub record Coclass : Type 0 where
  pub clsid : Guid
  pub name : Text

pub record TypelibInfo : Type 0 where
  pub name : Text
  pub version : Text
  pub tlb_path : Text
