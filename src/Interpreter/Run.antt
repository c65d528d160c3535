-- ===== src/Interpreter/Run.antt =====
-- ARMv8/Interpreter.cpp: the rounds of Run.
pub mod OneStep
