-- ===== src/Value.antt =====
-- Go's `any` as the YAML and JSON decoders fill it, and `map[string]any`.
use tortureu.Base.{String, Bool, [], ◌∷◌, Dict, Option, none, some, ℤ}
use tortureu.Float64.{Float64}

mutual
  pub data Value : Type 0 where
    null : Value
    bool : Bool → Value
    int : ℤ → Value
    int64 : ℤ → Value
    float : Float64 → Value
    str : String → Value
    seq : Items → Value
    obj : Fields → Value

  pub data Items : Type 0 where
    nil : Items
    cons : Value → Items → Items

  pub data Fields : Type 0 where
    end : Fields
    field : String → Value → Fields → Fields

-- the entries of a nested map
abbrev pub entries : Fields → Dict Value
entries end = []
entries (field k v fs) = (k, v) ∷ entries fs

-- v.(map[string]any)
abbrev pub as_map : Value → Option (Dict Value)
as_map (obj fs) = some (entries fs)
as_map _ = none
