-- ===== src/Attribute/Dictionary.antt =====
-- DictionaryManager (trademgen/basic/DictionaryManager.cpp): keys and values are the same doubles.
use trademgen.Platform.{Platform}

module _ ⦃p : Platform⦄ where
  unfoldable pub key_to_value : p.Real → p.Real
  key_to_value key = key

  unfoldable pub value_to_key : p.Real → p.Real
  value_to_key value = value
