-- ===== src/Display/Storage/Accessors.antt =====
-- What OBS documents of the accessors of a stored object.
use obs_vscode_privacy_guard.Base.{Bool, Bytes, equal, false, some, true, ℤ, ◌≡◌}
use obs_vscode_privacy_guard.Display.Storage.{ObsData}

-- What OBS documents of the accessors: what was set last under a key is read back and is a user value,
-- and setting one key leaves the others.
pub record IsObsData (o : ObsData) : Type 0 where
  pub int_int : (k : Bytes) (v : ℤ) (d : o.Data) → o.get_int k (o.set_int k v d) ≡ v
  pub string_string : (k s : Bytes) (d : o.Data) → o.get_string k (o.set_string k s d) ≡ some s
  pub bool_bool : (k : Bytes) (b : Bool) (d : o.Data) → o.get_bool k (o.set_bool k b d) ≡ b
  pub value_int : (k : Bytes) (v : ℤ) (d : o.Data) → o.has_user_value k (o.set_int k v d) ≡ true
  pub int_past_int :
      (k j : Bytes) (v : ℤ) (d : o.Data)
      → equal k j ≡ false
      → o.get_int k (o.set_int j v d) ≡ o.get_int k d
  pub int_past_string :
      (k j s : Bytes) (d : o.Data)
      → equal k j ≡ false
      → o.get_int k (o.set_string j s d) ≡ o.get_int k d
  pub int_past_bool :
      (k j : Bytes) (b : Bool) (d : o.Data)
      → equal k j ≡ false
      → o.get_int k (o.set_bool j b d) ≡ o.get_int k d
  pub string_past_int :
      (k j : Bytes) (v : ℤ) (d : o.Data)
      → equal k j ≡ false
      → o.get_string k (o.set_int j v d) ≡ o.get_string k d
  pub string_past_string :
      (k j s : Bytes) (d : o.Data)
      → equal k j ≡ false
      → o.get_string k (o.set_string j s d) ≡ o.get_string k d
  pub string_past_bool :
      (k j : Bytes) (b : Bool) (d : o.Data)
      → equal k j ≡ false
      → o.get_string k (o.set_bool j b d) ≡ o.get_string k d
  pub value_past_int :
      (k j : Bytes) (v : ℤ) (d : o.Data)
      → equal k j ≡ false
      → o.has_user_value k (o.set_int j v d) ≡ o.has_user_value k d
  pub value_past_string :
      (k j s : Bytes) (d : o.Data)
      → equal k j ≡ false
      → o.has_user_value k (o.set_string j s d) ≡ o.has_user_value k d
  pub value_past_bool :
      (k j : Bytes) (b : Bool) (d : o.Data)
      → equal k j ≡ false
      → o.has_user_value k (o.set_bool j b d) ≡ o.has_user_value k d
