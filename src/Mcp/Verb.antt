-- ===== src/Mcp/Verb.antt =====
-- The HTTP methods that the methods of mcp/src/client.ts use.
pub data Verb : Type 0 where
  get post put patch delete : Verb
