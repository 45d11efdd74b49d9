-- ===== src/Json.antt =====
-- Parsed JSON as the Python values that the validators look at, and `json.dumps` on the values
-- that the favorites modules print (cli/global_favorites_document.py, `_json`).
pub mod Value
pub mod Fields
pub mod Dumps
