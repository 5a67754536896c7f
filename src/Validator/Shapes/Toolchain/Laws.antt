-- ===== src/Validator/Shapes/Toolchain/Laws.antt =====
-- What pip is asked to install by a toolchain that passes.
use ormas_subnet.Common.{
  ◌≡◌, true, false, String, List, [], ◌∷◌, Value, str, Entries, keys, get_or_null, same_set, All,
  ok,
}
use ormas_subnet.Validator.Shapes.Toolchain.{
  is_requirement, is_python_version, list_or_malformed, is_empty,
}
use ormas_subnet.Validator.Shapes.Toolchain.Paths.{IsEditable, IsName, IsLockPath}

-- A list of requirements, and of "-e" with an editable path of the repository.
pub data AreInstalls : List Value → Type 0 where
  done : AreInstalls []
  editable :
      {path : String} {rest : List Value}
      → IsEditable path
      → AreInstalls rest
      → AreInstalls (str "-e" ∷ str path ∷ rest)
  requirement :
      {s : String} {rest : List Value}
      → is_requirement s ≡ true
      → IsName s
      → AreInstalls rest
      → AreInstalls (str s ∷ rest)

-- What a toolchain asks for: something to install, and lock paths of the repository.
pub record IsSafe (toolchain : Entries) : Type 0 where
  pub pip_install : List Value
  pub lock_paths : List Value
  pub closed :
      same_set (keys toolchain) ("kind" ∷ "python" ∷ "pip_install" ∷ "lock_paths" ∷ []) ≡ true
  pub versioned : is_python_version (get_or_null "python" toolchain) ≡ true
  pub pip_install_is : list_or_malformed (get_or_null "pip_install" toolchain) ≡ ok pip_install
  pub nonempty : is_empty pip_install ≡ false
  pub installs : AreInstalls pip_install
  pub lock_paths_are : list_or_malformed (get_or_null "lock_paths" toolchain) ≡ ok lock_paths
  pub locked : All IsLockPath lock_paths
