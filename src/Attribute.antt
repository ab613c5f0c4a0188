-- ===== src/Attribute.antt =====
-- The distributions of the values of an attribute (trademgen/basic): categorical and continuous
-- ones, and the loop over an array that both search by.
pub mod Scan
pub mod Dictionary
pub mod Categorical
pub mod Continuous
pub mod Multimap
pub mod Exact
