-- ===== src/Agent.antt =====
-- internal/agent/adapter.go: how a message reaches a running agent.
pub mod Summary

pub data Delivery : Type 0 where
  interrupt steer : Delivery
