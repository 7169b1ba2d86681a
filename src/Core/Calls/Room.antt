-- ===== src/Core/Calls/Room.antt =====
-- CUDT::send (src/core.cpp): that the buffer stays within its limit.
