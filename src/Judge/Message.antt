-- ===== src/Judge/Message.antt =====
-- The texts that src/judge shows to users. A constructor stands for a text, with the values that
-- the code formats into it.
use vibe_coding.Prelude.{ℕ}
use vibe_coding.Prelude.Int.{ℤ}
use vibe_coding.Prelude.Text.{Bytes}

pub data Message : Type 0 where
  -- "" and "服务停止，判题已取消"
  no_message cancelled_by_stop : Message
  -- "运行沙箱不可用", "无法启动运行进程", "触发全局判题时间上限"
  run_sandbox_unavailable run_not_started global_deadline : Message
  -- "超出内存限制（RSS > _ kB，峰值 _ kB）"
  memory_over : ℤ → ℕ → Message
  -- "超出时间限制（_ ms）"
  time_over : ℤ → Message
  -- "运行时被信号 _ 终止", without and with "（疑似 Sanitizer 诊断）"
  signalled signalled_by_sanitizer : ℕ → Message
  -- "非零退出码 _", "标准输出超过上限 _ 字节"
  exit_code stdout_over : ℕ → Message
  -- "运行进程未正常结束", "输出不匹配"
  run_not_ended mismatch : Message
  -- "不支持的语言: _", "创建判题工作目录失败: _", "写入源码失败: _"
  unsupported_language workspace_failed write_failed : Bytes → Message
  -- "没有可执行的测试用例", "无效的时间限制: _ ms"
  no_testcases : Message
  bad_time_limit : ℤ → Message
  -- "全局判题时间上限（_ ms）耗尽，剩余测试点未执行"
  global_exhausted : ℤ → Message
  -- "编译沙箱不可用: _", "编译环境故障: _"
  compile_sandbox_unavailable compile_not_started : Bytes → Message
  -- "编译超时（_ ms）", "编译器未正常结束", "编译器被信号 _ 终止", "编译错误"
  compile_timed_out : ℤ → Message
  compiler_not_ended : Message
  compiler_signalled : ℕ → Message
  compile_error no_executable : Message
  -- "运行沙箱不可用: _", "无法启动运行进程: _"
  run_sandbox_error run_launch_error : Bytes → Message
  -- the text before, with "（_ ms）" behind it
  with_budget : Message → ℤ → Message
  -- "全部测试点通过", "存在输出不匹配的测试点"
  all_passed some_mismatch : Message
  -- "判题内部错误", of which the exception's text is left out
  judging_failed : Message
